-- ===== src/Apps/Histories.antt =====
-- internal/apps/manager.go: every step of a manager keeps what holds of the running apps.
use firego.Base.{
  ℕ, ◌≡◌, refl, sym, ap, ◌∙◌, subst, Bool, true, false, Bool-cases, Option, none, some, List, [],
  ◌∷◌, Bytes, same, ◌⊎◌, Unique, Unique-insert, Unique-delete, lookup, delete, Dict, lookup-delete,
  delete-insert, All, All-insert, All-delete, All-lookup, inl, inr,
}
use firego.Jwt.Token.{Codec}
use firego.Auth.Email.{trim_space}
use firego.Apps.Manager.{
  Info, App, AppFiles, AppError, id_taken, invalid_id, or_id, Manager, valid_id, default_id,
  app_secret, start_app, register_app, create, is_running, create_app, delete_app, save_registry,
}
use firego.Apps.Running.{
  SameApp, Step, creates, deletes, serves, serve, step, run, IsApp, Sound, start_app_inv,
  running-insert, add_app-Sound,
}

module _ (k : Codec) where
  -- An app that was put in and taken out again leaves the others as they were.
  undo-Sound :
      (id : Bytes) (a : App) (left : Option AppFiles) (m : Manager) (master : Bytes)
      → lookup id m.apps ≡ none
      → Sound k master m
      → Sound k master (register_app k (some a) id left false m).1
  undo-Sound id a left m master free h =
      let gone = sym (delete-insert id a m.apps free) in
      record {
        each = subst (All (IsApp k master)) gone h.each;
        once = subst Unique gone h.once;
        defaulted = subst (λ apps. is_running k (lookup default_id apps) ≡ true) gone h.defaulted;
        mastered = h.mastered;
      }

  register_app-Sound :
      (o : Option App) (id : Bytes) (left : Option AppFiles) (disk : Bool) (m : Manager)
      (master : Bytes)
      → ((a : App) → o ≡ some a → IsApp k master (id, a))
      → lookup id m.apps ≡ none
      → Sound k master m
      → Sound k master (register_app k o id left disk m).1
  register_app-Sound none id left disk m master is free h = h
  register_app-Sound (some a) id left true m master is free h =
      let s = add_app-Sound k id a m master (is a refl) h in
      record { each = s.each; once = s.once; defaulted = s.defaulted; mastered = s.mastered }
  register_app-Sound (some a) id left false m master is free h =
      undo-Sound id a left m master free h

  -- An app that is started under an id of its own and the secret of the manager.
  pub start_app-IsApp :
      (info : Info) (made : Bytes → Bool) (m : Manager) (master : Bytes) (a : App)
      → valid_id info.id ≡ true
      → m.master_secret ≡ master
      → start_app k info made m ≡ some a
      → IsApp k master (info.id, a)
  start_app-IsApp info made m master a valid same_master h =
      let (same_info, signs) = start_app_inv k info made m a h in
      (ap (λ i. i.id) same_info, valid, signs ∙ ap (λ s. app_secret k s info.id) same_master)

  free_of_stopped : (o : Option App) → is_running k o ≡ false → o ≡ none
  free_of_stopped none h = refl
  free_of_stopped (some a) h = absurd cc

  -- A creation that is refused, or passed on.
  pub create_app_ends :
      (id name : Bytes) (key_bytes : List ℕ) (now : ℕ) (made : Bytes → Bool)
      (left : Option AppFiles) (disk : Bool) (m : Manager)
      → ((e : AppError) × (create_app k id name key_bytes now made left disk m ≡ (inl e, m)))
        ⊎ ((valid_id id ≡ true)
            × (lookup id m.apps ≡ none)
            × (create_app k id name key_bytes now made left disk m
                ≡ create k id (or_id k id (trim_space name)) key_bytes now made left disk m))
  unfolding create_app
  create_app_ends id name key_bytes now made left disk m = elim (Bool-cases (valid_id id)) [
    | inr bad ↦ inl (invalid_id, rw bad refl)
    | inl valid ↦ elim (Bool-cases (is_running k (lookup id m.apps))) [
      | inl taken ↦ inl (id_taken, rw (valid, taken) refl)
      | inr stopped ↦
          inr (valid, free_of_stopped (lookup id m.apps) stopped, rw (valid, stopped) refl)
    ]
  ]

  create_app-Sound :
      (id name : Bytes) (key_bytes : List ℕ) (now : ℕ) (made : Bytes → Bool)
      (left : Option AppFiles) (disk : Bool) (m : Manager) (master : Bytes)
      → Sound k master m
      → Sound k master (create_app k id name key_bytes now made left disk m).1
  unfolding create
  create_app-Sound id name key_bytes now made left disk m master h =
      elim (create_app_ends id name key_bytes now made left disk m) [
        | inl (e, ends) ↦ subst (λ r. Sound k master r.1) (sym ends) h
        | inr (valid, free, ends) ↦
            subst (λ r. Sound k master r.1) (sym ends)
              (register_app-Sound _ id left disk m master
                (λ a e. start_app-IsApp _ made m master a valid h.mastered e) free h)
      ]

  running-delete :
      (id at : Bytes) (apps : Dict App)
      → same id at ≡ false
      → is_running k (lookup at apps) ≡ true
      → is_running k (lookup at (delete id apps)) ≡ true
  running-delete id at apps other h = rw (lookup-delete id at apps, other) h

  save_registry-Sound :
      (disk : Bool) (m : Manager) (master : Bytes)
      → Sound k master m
      → Sound k master (save_registry disk m)
  save_registry-Sound true m master h = record {
    each = h.each;
    once = h.once;
    defaulted = h.defaulted;
    mastered = h.mastered;
  }
  save_registry-Sound false m master h = h

  delete_app-Sound :
      (id : Bytes) (left : Option AppFiles) (disk : Bool) (m : Manager) (master : Bytes)
      → Sound k master m
      → Sound k master (delete_app k id left disk m).1
  unfolding delete_app
  delete_app-Sound id left disk m master h = elim (Bool-cases (same id default_id)) [
    | inl here ↦ rw here h
    | inr other ↦ elim (Bool-cases (is_running k (lookup id m.apps))) [
      | inr stopped ↦ rw (other, stopped) h
      | inl runs ↦
          rw (other, runs)
            (save_registry-Sound disk _ master (record {
              each = All-delete (IsApp k master) id m.apps h.each;
              once = Unique-delete id m.apps h.once;
              defaulted = running-delete id default_id m.apps other h.defaulted;
              mastered = h.mastered;
            }))
    ]
  ]

  serve-Sound :
      (id : Bytes) (f : App → App) (o : Option App) (m : Manager) (master : Bytes)
      → ((a : App) → SameApp a (f a))
      → lookup id m.apps ≡ o
      → Sound k master m
      → Sound k master (serve id f o m)
  serve-Sound id f none m master keeps e h = h
  serve-Sound id f (some a) m master keeps e h =
      let (under, valid, signs) = All-lookup (IsApp k master) id a m.apps h.each e in
      let (same_info, same_secret) = keeps a in
      record {
        each =
            All-insert (IsApp k master) id (f a) m.apps
              (ap (λ i. i.id) same_info ∙ under, valid, same_secret ∙ signs) h.each;
        once = Unique-insert id (f a) m.apps h.once;
        defaulted = running-insert k id default_id (f a) m.apps h.defaulted;
        mastered = h.mastered;
      }

  step-Sound :
      (x : Step) (m : Manager) (master : Bytes) → Sound k master m → Sound k master (step k x m)
  unfolding step
  step-Sound (creates id name key_bytes now made left disk) m master h =
      create_app-Sound id name key_bytes now made left disk m master h
  step-Sound (deletes id left disk) m master h = delete_app-Sound id left disk m master h
  step-Sound (serves id f keeps) m master h =
      serve-Sound id f (lookup id m.apps) m master keeps refl h

  pub run-Sound :
      (xs : List Step) (m : Manager) (master : Bytes)
      → Sound k master m
      → Sound k master (run k xs m)
  unfolding run
  run-Sound [] m master h = h
  run-Sound (x ∷ xs) m master h = run-Sound xs (step k x m) master (step-Sound x m master h)
