-- ===== src/Apps/Reload.antt =====
-- internal/apps/manager.go: `loadAll` on the files of apps that can be loaded.
use firego.Base.{
  ◌≡◌, refl, sym, ap, ◌∙◌, Bool, true, false, Bool-cases, none, some, [], ◌∷◌, ◌++◌, append-nil,
  append_assoc, Bytes, same, same_iff, map, Unique, lookup, insert, Dict, lookup-delete, All, inl,
  inr, arith, ◌>>=◌,
}
use firego.Jwt.Token.{Codec}
use firego.Apps.Manager.{
  App, Manager, files_of, files_at, files_under, init_services, start_app, load_infos, add_app,
}

-- Each directory can be made, or is there.
abbrev pub all_made : Bytes → Bool
all_made id = true

insert-free {ℓ} :
    {V : Type ℓ} (key : Bytes) (v : V) (m : Dict V)
    → lookup key m ≡ none
    → insert key v m ≡ m ++ (key, v) ∷ []
unfolding insert lookup
insert-free key v [] h = refl
insert-free key v (entry ∷ m) h = elim (Bool-cases (same entry.0 key)) [
  | inl here ↦ absurd (ground (arith, here))
  | inr other ↦
      let free : lookup key (entry ∷ m) ≡ lookup key m = rw other refl in
      rw other (ap (λ r. entry ∷ r) (insert-free key v m (sym free ∙ h)))
]

lookup-append {ℓ} :
    {V : Type ℓ} (key at : Bytes) (v : V) (m : Dict V)
    → lookup at m ≡ none
    → same key at ≡ false
    → lookup at (m ++ (key, v) ∷ []) ≡ none
unfolding lookup
lookup-append key at v [] h other = rw other refl
lookup-append key at v (entry ∷ m) h other = elim (Bool-cases (same entry.0 at)) [
  | inl here ↦ absurd (ground (arith, here))
  | inr apart ↦
      let free : lookup at (entry ∷ m) ≡ lookup at m = rw apart refl in
      rw apart (lookup-append key at v m (sym free ∙ h) other)
]

module _ (k : Codec) (master : Bytes) where
  -- The services of an app can be made from its files.
  abbrev pub Reloads : Bytes × App → Type 0
  Reloads entry = (a : App) × (init_services k entry.1.info (files_of entry.1) master ≡ some a)

  -- The apps that come of the files of these.
  abbrev pub reloaded : (apps : Dict App) → All Reloads apps → Dict App
  reloaded [] h = []
  reloaded (entry ∷ apps) h = (entry.0, h.0.0) ∷ reloaded apps h.1

  abbrev pub Named : Bytes × App → Type 0
  Named entry = entry.1.info.id ≡ entry.0

  -- What is still to load: none of it runs, and its files are there.
  abbrev pub Pending : Manager → Bytes × App → Type 0
  Pending m entry =
      (lookup entry.0 m.apps ≡ none) × (lookup entry.0 m.dirs ≡ some (files_of entry.1))

  Pending-add :
      (id : Bytes) (a : App) (m : Manager) (rest : Dict App)
      → lookup id m.apps ≡ none
      → lookup id rest ≡ none
      → All (Pending m) rest
      → All (Pending (add_app id a m)) rest
  unfolding lookup
  Pending-add id a m [] free apart h = tt
  Pending-add id a m (entry ∷ rest) free apart h = elim (Bool-cases (same entry.0 id)) [
    | inl here ↦ absurd (ground (arith, here))
    | inr other ↦
        let later : lookup id (entry ∷ rest) ≡ lookup id rest = rw other refl in
        let apart' : same id entry.0 ≡ false =
          ground (arith, other, same_iff id entry.0, same_iff entry.0 id) in
        (
          (
            ap (lookup entry.0) (insert-free id a m.apps free)
                ∙ lookup-append id entry.0 a m.apps h.0.0 apart',
            rw (lookup-delete id entry.0 m.dirs, apart') h.0.1,
          ),
          Pending-add id a m rest free (sym later ∙ apart) h.1,
        )
  ]

  start_app-Pending :
      (entry : Bytes × App) (m : Manager) (a : App)
      → Named entry
      → Pending m entry
      → m.master_secret ≡ master
      → init_services k entry.1.info (files_of entry.1) master ≡ some a
      → start_app k entry.1.info all_made m ≡ some a
  unfolding start_app files_under
  start_app-Pending entry m a named pending same_master h =
      ap
        (λ id.
          init_services k entry.1.info (files_at (lookup id m.apps) (lookup id m.dirs))
            m.master_secret)
        named
      ∙ ap (λ o. init_services k entry.1.info (files_at o (lookup entry.0 m.dirs)) m.master_secret)
          pending.0
      ∙ ap (λ o. init_services k entry.1.info (files_at none o) m.master_secret) pending.1
      ∙ ap (init_services k entry.1.info (files_of entry.1)) same_master
      ∙ h

  pub load_infos-Pending :
      (rest : Dict App) (m : Manager) (h : All Reloads rest)
      → All Named rest
      → Unique rest
      → All (Pending m) rest
      → m.master_secret ≡ master
      → (m' : Manager) × (load_infos k (map (λ entry. entry.1.info) rest) all_made m ≡ some m')
        × (m'.apps ≡ m.apps ++ reloaded rest h)
  unfolding load_infos
  load_infos-Pending [] m h named once pending same_master = (m, refl, sym (append-nil m.apps))
  load_infos-Pending (entry ∷ rest) m h named once pending same_master =
      let a = h.0.0 in
      let m1 = add_app entry.0 a m in
      let (m', loads, apps) =
        load_infos-Pending rest m1 h.1 named.1 once.1
          (Pending-add entry.0 a m rest pending.0.0 once.0 pending.1) same_master in
      (
        m',
        ap
              (λ o. o >>= λ a.
                load_infos k (map (λ entry. entry.1.info) rest) all_made
                  (add_app entry.1.info.id a m))
              (start_app-Pending entry m a named.0 pending.0 same_master h.0.1)
            ∙ ap (λ id. load_infos k (map (λ entry. entry.1.info) rest) all_made (add_app id a m))
                named.0
            ∙ loads,
        apps
            ∙ ap (λ xs. xs ++ reloaded rest h.1) (insert-free entry.0 a m.apps pending.0.0)
            ∙ append_assoc m.apps ((entry.0, a) ∷ []) (reloaded rest h.1),
      )
