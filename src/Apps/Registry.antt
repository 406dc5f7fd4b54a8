-- ===== src/Apps/Registry.antt =====
-- internal/apps/manager.go: the registry on disk stays in step with the running apps, but for a
-- deletion whose save fails.
use firego.Base.{
  ℕ, ◌≡◌, refl, sym, ap, ◌∙◌, subst, Bool, true, false, Bool-cases, Option, none, some, some_inj,
  List, [], ◌∷◌, Bytes, codes, same, ◌⊎◌, map, map-insert, lookup, insert, delete, Dict,
  delete-insert, All, inl, inr,
}
use firego.Jwt.Token.{Codec, unix}
use firego.Auth.Email.{random_hex}
use firego.Apps.Manager.{
  Info, App, AppFiles, AppError, is_protected, app_unknown, remove_all, Manager, no_registry, lists,
  list_apps, valid_id, default_id, start_app, register_app, create, is_running, create_app,
  delete_app, save_registry, created_default, new,
}
use firego.Apps.Running.{SameApp, Step, creates, deletes, serves, serve, step, run, IsApp, Sound}
use firego.Apps.Histories.{start_app-IsApp, create_app_ends}

module _ (k : Codec) where
  -- The registry on disk lists the running apps.
  abbrev pub Synced : Manager → Type 0
  Synced m = m.registry ≡ lists (list_apps m)

  -- A deletion is saved.
  abbrev pub Saves : Step → Type 0
  Saves (creates _ _ _ _ _ _ _) = Unit
  Saves (deletes _ _ disk) = disk ≡ true
  Saves (serves _ _ _) = Unit

  register_app-Synced :
      (o : Option App) (id : Bytes) (left : Option AppFiles) (disk : Bool) (m : Manager)
      → lookup id m.apps ≡ none
      → Synced m
      → Synced (register_app k o id left disk m).1
  register_app-Synced none id left disk m free h = h
  register_app-Synced (some a) id left true m free h = refl
  register_app-Synced (some a) id left false m free h =
      subst (λ apps. m.registry ≡ lists (map (λ entry. entry.1.info) apps))
        (sym (delete-insert id a m.apps free)) h

  serve-Synced :
      (id : Bytes) (f : App → App) (o : Option App) (m : Manager)
      → ((a : App) → SameApp a (f a))
      → lookup id m.apps ≡ o
      → Synced m
      → Synced (serve id f o m)
  serve-Synced id f none m keeps e h = h
  serve-Synced id f (some a) m keeps e h =
      h ∙ ap lists (sym (map-insert (λ x. x.info) id a (f a) m.apps e (keeps a).0))

  -- A deletion that is refused, or what is left to register when it is not.
  delete_app_ends :
      (id : Bytes) (left : Option AppFiles) (m : Manager)
      → ((e : AppError) × (delete_app k id left true m ≡ (some e, m)))
        ⊎ (delete_app k id left true m ≡ (
          none,
          save_registry true
              (record m { apps = delete id m.apps; dirs = remove_all id left m.dirs }),
        ))
  unfolding delete_app
  delete_app_ends id left m = elim (Bool-cases (same id default_id)) [
    | inl here ↦ inl (is_protected, rw here refl)
    | inr other ↦ elim (Bool-cases (is_running k (lookup id m.apps))) [
      | inr stopped ↦ inl (app_unknown, rw (other, stopped) refl)
      | inl runs ↦ inr (rw (other, runs) refl)
    ]
  ]

  create_app-Synced :
      (id name : Bytes) (key_bytes : List ℕ) (now : ℕ) (made : Bytes → Bool)
      (left : Option AppFiles) (disk : Bool) (m : Manager)
      → Synced m
      → Synced (create_app k id name key_bytes now made left disk m).1
  unfolding create
  create_app-Synced id name key_bytes now made left disk m h =
      elim (create_app_ends k id name key_bytes now made left disk m) [
        | inl (e, ends) ↦ subst (λ r. Synced r.1) (sym ends) h
        | inr (valid, free, ends) ↦
            subst (λ r. Synced r.1) (sym ends) (register_app-Synced _ id left disk m free h)
      ]

  delete_app-Synced :
      (id : Bytes) (left : Option AppFiles) (m : Manager)
      → Synced m
      → Synced (delete_app k id left true m).1
  delete_app-Synced id left m h = elim (delete_app_ends id left m) [
    | inl (e, ends) ↦ subst (λ r. Synced r.1) (sym ends) h
    | inr ends ↦ subst (λ r. Synced r.1) (sym ends) refl
  ]

  step-Synced : (x : Step) (m : Manager) → Saves x → Synced m → Synced (step k x m)
  unfolding step
  step-Synced (creates id name key_bytes now made left disk) m saves h =
      create_app-Synced id name key_bytes now made left disk m h
  step-Synced (deletes id left disk) m saves h =
      subst (λ d. Synced (delete_app k id left d m).1) (sym saves) (delete_app-Synced id left m h)
  step-Synced (serves id f keeps) m saves h = serve-Synced id f (lookup id m.apps) m keeps refl h

  pub run-Synced : (xs : List Step) (m : Manager) → All Saves xs → Synced m → Synced (run k xs m)
  unfolding run
  run-Synced [] m saves h = h
  run-Synced (x ∷ xs) m saves h = run-Synced xs (step k x m) saves.1 (step-Synced x m saves.0 h)

  start_lem :
      (o : Option App) (disk : Bool) (dirs : Dict AppFiles) (master : Bytes) (m : Manager)
      → ((a : App) → o ≡ some a → IsApp k master (default_id, a))
      → created_default k (
          register_app k o default_id none disk
            (record { apps = []; registry = no_registry; dirs = dirs; master_secret = master }))
        ≡ some m
      → Sound k master m × Synced m
  unfolding insert lookup same
  start_lem none disk dirs master m is h = absurd cc
  start_lem (some a) false dirs master m is h = absurd cc
  start_lem (some a) true dirs master m is h =
      subst (λ x. Sound k master x × Synced x) (some_inj.0 h)
        (
          record { each = (is a refl, tt); once = (refl, tt); defaulted = refl; mastered = refl },
          refl,
        )

  -- A manager that is made where there is no registry runs the default app, and has it registered.
  pub new-Sound :
      (dirs : Dict AppFiles) (master : Bytes) (key_bytes : List ℕ) (now : ℕ) (made : Bytes → Bool)
      (disk : Bool) (m : Manager)
      → new k no_registry dirs master key_bytes now made disk ≡ some m
      → Sound k master m × Synced m
  unfolding new create lookup valid_id
  new-Sound dirs master key_bytes now made disk m h =
      let info : Info = record {
        id = default_id;
        name = codes "Default App";
        api_key = random_hex key_bytes;
        created_at = unix now;
      } in
      let bare : Manager = record {
        apps = [];
        registry = no_registry;
        dirs = dirs;
        master_secret = master;
      } in
      start_lem (start_app k info made bare) disk dirs master m
        (λ a e. start_app-IsApp k info made bare master a refl refl e) h
