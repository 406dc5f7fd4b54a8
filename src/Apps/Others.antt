-- ===== src/Apps/Others.antt =====
-- internal/apps/manager.go: what creating, deleting and using one app does to the others.
use firego.Base.{
  ℕ, ◌≡◌, refl, sym, ap, ◌∙◌, subst, Bool, true, false, Bool-cases, Option, none, some, List, Bytes,
  same, same_iff, lookup, insert, lookup-insert, lookup-delete, inl, inr, arith,
}
use firego.Jwt.Token.{Codec}
use firego.Apps.Manager.{
  App, AppFiles, Manager, get_app, register_app, create, create_app, save_registry, delete_app,
  is_running, default_id,
}
use firego.Apps.Running.{serve}
use firego.Apps.Histories.{create_app_ends}

-- A running app that stays as it is.
abbrev pub Untouched : Bytes → App → Manager → Manager → Type 0
Untouched id a m m' = get_app id m ≡ some a → get_app id m' ≡ some a

apart_of_free :
    (at id : Bytes) (a : App) (m : Manager)
    → lookup at m.apps ≡ none
    → lookup id m.apps ≡ some a
    → same at id ≡ false
apart_of_free at id a m free here = elim (Bool-cases (same at id)) [
  | inl e ↦ absurd (ground (arith, free, here, ap (λ x. lookup x m.apps) ((same_iff at id).0 e)))
  | inr e ↦ e
]

pub get_app-serve :
    (at id : Bytes) (f : App → App) (o : Option App) (a : App) (m : Manager)
    → same at id ≡ false
    → Untouched id a m (serve at f o m)
unfolding get_app
get_app-serve at id f none a m apart here = here
get_app-serve at id f (some other) a m apart here =
    rw (lookup-insert at id (f other) m.apps, apart) here

module _ (k : Codec) where
  get_app-register_app :
      (o : Option App) (at id : Bytes) (left : Option AppFiles) (disk : Bool) (a : App)
      (m : Manager)
      → same at id ≡ false
      → Untouched id a m (register_app k o at left disk m).1
  unfolding get_app
  get_app-register_app none at id left disk a m apart here = here
  get_app-register_app (some x) at id left true a m apart here =
      rw (lookup-insert at id x m.apps, apart) here
  get_app-register_app (some x) at id left false a m apart here =
      rw (lookup-delete at id (insert at x m.apps), apart)
        (rw (lookup-insert at id x m.apps, apart) here)

  -- A creation leaves every running app as it is.
  pub get_app-create_app :
      (at name : Bytes) (key_bytes : List ℕ) (now : ℕ) (made : Bytes → Bool)
      (left : Option AppFiles) (disk : Bool) (id : Bytes) (a : App) (m : Manager)
      → Untouched id a m (create_app k at name key_bytes now made left disk m).1
  unfolding create get_app
  get_app-create_app at name key_bytes now made left disk id a m here =
      elim (create_app_ends k at name key_bytes now made left disk m) [
        | inl (e, ends) ↦ subst (λ r. lookup id r.1.apps ≡ some a) (sym ends) here
        | inr (valid, free, ends) ↦
            subst (λ r. lookup id r.1.apps ≡ some a) (sym ends)
              (get_app-register_app _ at id left disk a m (apart_of_free at id a m free here) here)
      ]

  apps-save_registry : (disk : Bool) (m : Manager) → (save_registry disk m).apps ≡ m.apps
  apps-save_registry true m = refl
  apps-save_registry false m = refl

  pub get_app-delete_app :
      (at : Bytes) (left : Option AppFiles) (disk : Bool) (id : Bytes) (a : App) (m : Manager)
      → same at id ≡ false
      → Untouched id a m (delete_app k at left disk m).1
  unfolding delete_app get_app
  get_app-delete_app at left disk id a m apart here = elim (Bool-cases (same at default_id)) [
    | inl protected ↦ rw protected here
    | inr other ↦ elim (Bool-cases (is_running k (lookup at m.apps))) [
      | inr stopped ↦ rw (other, stopped) here
      | inl runs ↦
          rw (other, runs)
            (ap (lookup id) (apps-save_registry disk _)
              ∙ rw (lookup-delete at id m.apps, apart) here)
    ]
  ]
