-- ===== src/Apps/Restart.antt =====
-- internal/apps/manager.go: a manager that is made again from what the last one left on disk.
use firego.Base.{
  ℕ, ◌≡◌, refl, sym, ap, ◌∙◌, Bool, true, Bool-cases, Option, some, some_inj, List, [], ◌∷◌, Bytes,
  same, map, Unique-found, lookup, Dict, All, inl, inr, ◌>>=◌,
}
use firego.Jwt.Token.{Codec}
use firego.Apps.Manager.{
  App, AppFiles, Manager, no_registry, list_apps, default_id, files_of, init_services,
  load_registry, with_default, is_running, new, get_app,
}
use firego.Apps.Running.{Step, run, IsApp, Sound, init_services_inv}
use firego.Apps.Histories.{run-Sound}
use firego.Apps.Registry.{Synced, Saves, run-Synced, new-Sound}
use firego.Apps.Reload.{all_made, Reloads, Pending, Named, reloaded, load_infos-Pending}

-- The directories of all apps, those in use first.
abbrev pub disk_dirs : Dict App → Dict AppFiles → Dict AppFiles
disk_dirs [] dirs = dirs
disk_dirs (entry ∷ apps) dirs = (entry.0, files_of entry.1) ∷ disk_dirs apps dirs

module _ (k : Codec) (master : Bytes) where
  lookup-disk_dirs :
      (key : Bytes) (a : App) (apps : Dict App) (dirs : Dict AppFiles)
      → lookup key apps ≡ some a
      → lookup key (disk_dirs apps dirs) ≡ some (files_of a)
  unfolding lookup
  lookup-disk_dirs key a [] dirs h = absurd cc
  lookup-disk_dirs key a (entry ∷ apps) dirs h = elim (Bool-cases (same entry.0 key)) [
    | inl here ↦
        let found : lookup key (entry ∷ apps) ≡ some entry.1 = rw here refl in
        rw here (ap (λ x. some (files_of x)) (some_inj.0 (sym found ∙ h)))
    | inr other ↦
        let later : lookup key (entry ∷ apps) ≡ lookup key apps = rw other refl in
        rw other (lookup-disk_dirs key a apps dirs (sym later ∙ h))
  ]

  Pending-disk_dirs :
      (m : Manager) (apps all : Dict App) (dirs : Dict AppFiles)
      → m.apps ≡ []
      → m.dirs ≡ disk_dirs all dirs
      → All (λ entry. lookup entry.0 all ≡ some entry.1) apps
      → All (Pending k master m) apps
  unfolding lookup
  Pending-disk_dirs m [] all dirs bare full h = tt
  Pending-disk_dirs m (entry ∷ apps) all dirs bare full h = (
    (
      ap (lookup entry.0) bare,
      ap (lookup entry.0) full ∙ lookup-disk_dirs entry.0 entry.1 all dirs h.0,
    ),
    Pending-disk_dirs m apps all dirs bare full h.1,
  )

  infos-reloaded :
      (apps : Dict App) (h : All (Reloads k master) apps)
      → map (λ entry. entry.1.info) (reloaded k master apps h) ≡ map (λ entry. entry.1.info) apps
  infos-reloaded [] h = refl
  infos-reloaded (entry ∷ apps) h =
      ap (λ i. i ∷ map (λ entry. entry.1.info) (reloaded k master apps h.1))
        (init_services_inv k entry.1.info (files_of entry.1) master h.0.0 h.0.1).0
      ∙ ap (λ is. entry.1.info ∷ is) (infos-reloaded apps h.1)

  -- An app as it is made again from its files.
  abbrev pub reload : App → Option App
  reload a = init_services k a.info (files_of a) master

  lookup-reloaded :
      (key : Bytes) (apps : Dict App) (h : All (Reloads k master) apps)
      → lookup key (reloaded k master apps h) ≡ (lookup key apps >>= reload)
  unfolding lookup
  lookup-reloaded key [] h = refl
  lookup-reloaded key (entry ∷ apps) h = elim (Bool-cases (same entry.0 key)) [
    | inl here ↦ rw here (sym h.0.1)
    | inr other ↦ rw other (lookup-reloaded key apps h.1)
  ]

  running-reloaded :
      (key : Bytes) (apps : Dict App) (h : All (Reloads k master) apps)
      → is_running k (lookup key (reloaded k master apps h)) ≡ is_running k (lookup key apps)
  unfolding lookup
  running-reloaded key [] h = refl
  running-reloaded key (entry ∷ apps) h = elim (Bool-cases (same entry.0 key)) [
    | inl here ↦ rw here refl
    | inr other ↦ rw other (running-reloaded key apps h.1)
  ]

  Named-Sound : (apps : Dict App) → All (IsApp k master) apps → All (Named k master) apps
  Named-Sound [] h = tt
  Named-Sound (entry ∷ apps) h = (h.0.0, Named-Sound apps h.1)

  with_default-running :
      (key_bytes : List ℕ) (now : ℕ) (disk : Bool) (m : Manager)
      → is_running k (lookup default_id m.apps) ≡ true
      → with_default k key_bytes now all_made disk m ≡ some m
  with_default-running key_bytes now disk m h = rw h refl

  -- A sound manager whose registry is in step is made again from its disk.
  new-Synced :
      (m : Manager) (key_bytes : List ℕ) (now : ℕ) (disk : Bool)
      → Sound k master m
      → Synced k m
      → All (Reloads k master) m.apps
      → (m' : Manager) × (new k m.registry
            (disk_dirs m.apps m.dirs)
            master
            key_bytes
            now
            all_made
            disk
          ≡ some m')
        × (list_apps m' ≡ list_apps m)
        × ((id : Bytes) → get_app id m' ≡ (get_app id m >>= reload))
  unfolding new get_app
  new-Synced m key_bytes now disk sound synced h =
      let bare : Manager = record {
        apps = [];
        registry = m.registry;
        dirs = disk_dirs m.apps m.dirs;
        master_secret = master;
      } in
      let (m', loads, apps) =
        load_infos-Pending k master m.apps bare h (Named-Sound m.apps sound.each) sound.once
          (Pending-disk_dirs bare m.apps m.apps m.dirs refl refl (Unique-found m.apps sound.once))
          refl in
      let runs : is_running k (lookup default_id m'.apps) ≡ true =
        ap (λ xs. is_running k (lookup default_id xs)) apps
        ∙ running-reloaded default_id m.apps h
        ∙ sound.defaulted in
      (
        m',
        ap (λ r. load_registry k r all_made bare >>= with_default k key_bytes now all_made disk)
              synced
            ∙ ap (λ o. o >>= with_default k key_bytes now all_made disk) loads
            ∙ with_default-running key_bytes now disk m' runs,
        ap (map (λ entry. entry.1.info)) apps ∙ infos-reloaded m.apps h,
        λ id. ap (lookup id) apps ∙ lookup-reloaded id m.apps h,
      )

-- After any history of a manager that began without a registry, in which each deletion was saved, a
-- manager that is made from what it left on disk lists the same apps, and has for each id the app
-- that comes of its files, if each app can be loaded.
pub new-disk_dirs :
    (k : Codec) (master : Bytes) (dirs : Dict AppFiles) (key_bytes key_bytes' : List ℕ)
    (now later : ℕ) (made : Bytes → Bool) (disk disk' : Bool) (start : Manager) (xs : List Step)
    → new k no_registry dirs master key_bytes now made disk ≡ some start
    → All (Saves k) xs
    → All (Reloads k master) (run k xs start).apps
    → (m' : Manager) × (new k
          (run k xs start).registry
          (disk_dirs (run k xs start).apps (run k xs start).dirs)
          master
          key_bytes'
          later
          all_made
          disk'
        ≡ some m')
      × (list_apps m' ≡ list_apps (run k xs start))
      × ((id : Bytes) → get_app id m' ≡ (get_app id (run k xs start) >>= reload k master))
new-disk_dirs k master dirs key_bytes key_bytes' now later made disk disk' start xs begins saves
      loads =
    let (sound, synced) = new-Sound k dirs master key_bytes now made disk start begins in
    new-Synced k master (run k xs start) key_bytes' later disk' (run-Sound k xs start master sound)
      (run-Synced k xs start saves synced) loads
