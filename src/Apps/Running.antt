-- ===== src/Apps/Running.antt =====
-- internal/apps/manager.go: what holds of the running apps, whatever is created, deleted and done.
use firego.Base.{
  ℕ, ◌≡◌, refl, sym, ap, ◌∙◌, Bool, true, Bool-cases, Option, none, some, some_inj, List, [], ◌∷◌,
  Bytes, same, Dict, Unique, Unique-insert, lookup, insert, lookup-insert, All, All-insert, inl,
  inr, arith,
}
use firego.Jwt.Token.{Codec}
use firego.Auth.Service.{Accounts, Service, absent, holds, broken, empty, new as new_auth}
use firego.Database.Store.{Db}
use firego.Storage.Store.{Store}
use firego.Rules.Check.{RuleSet}
use firego.Apps.RemoteConfig.{RemoteConfig}
use firego.Auth.Loading.{secret-load}
use firego.Apps.Manager.{
  Info, App, AppFiles, Manager, valid_id, default_id, add_app, app_secret, init_services, assemble,
  start_app, files_under, is_running, create_app, delete_app,
}

-- What the use of an app's services leaves as it is.
abbrev pub SameApp : App → App → Type 0
SameApp a b = (b.info ≡ a.info) × (b.auth.secret ≡ a.auth.secret)

-- The steps of a manager. A use of an app's services changes the app in place.
pub data Step : Type 0 where
  creates : Bytes → Bytes → List ℕ → ℕ → (Bytes → Bool) → Option AppFiles → Bool → Step
  deletes : Bytes → Option AppFiles → Bool → Step
  serves : Bytes → (f : App → App) → ((a : App) → SameApp a (f a)) → Step

abbrev pub serve : Bytes → (App → App) → Option App → Manager → Manager
serve id f none m = m
serve id f (some a) m = record m { apps = insert id (f a) m.apps }

module _ (k : Codec) where
  unfoldable pub step : Step → Manager → Manager
  unfolding create_app delete_app lookup
  step (creates id name key_bytes now made left disk) m =
      (create_app k id name key_bytes now made left disk m).1
  step (deletes id left disk) m = (delete_app k id left disk m).1
  step (serves id f keeps) m = serve id f (lookup id m.apps) m

  unfoldable pub run : List Step → Manager → Manager
  unfolding step
  run [] m = m
  run (x ∷ xs) m = run xs (step x m)

  -- A running app stands under its id, which is valid, and signs with the secret of this id.
  abbrev pub IsApp : Bytes → Bytes × App → Type 0
  IsApp master entry =
      (entry.1.info.id ≡ entry.0)
      × (valid_id entry.0 ≡ true)
      × (entry.1.auth.secret ≡ app_secret k master entry.0)

  pub record Sound (master : Bytes) (m : Manager) : Type 0 where
    pub each : All (IsApp master) m.apps
    pub once : Unique m.apps
    pub defaulted : is_running k (lookup default_id m.apps) ≡ true
    pub mastered : m.master_secret ≡ master

  secret-new_auth :
      (file : Accounts) (secret : Bytes) (s : Service)
      → new_auth file secret ≡ some s
      → s.secret ≡ secret
  unfolding new_auth
  secret-new_auth absent secret s h = sym (ap (λ t. t.secret) (some_inj.0 h))
  secret-new_auth (holds us) secret s h =
      sym (ap (λ t. t.secret) (some_inj.0 h)) ∙ secret-load us (empty (holds us) secret)
  secret-new_auth broken secret s h = absurd cc

  assemble_inv :
      (info : Info) (auth : Option Service) (db : Option Db) (store : Option Store)
      (rules : Option RuleSet) (config : Option RemoteConfig) (a : App)
      → assemble info auth db store rules config ≡ some a
      → (a.info ≡ info) × (auth ≡ some a.auth)
  assemble_inv info none db store rules config a h = absurd cc
  assemble_inv info (some s) none store rules config a h = absurd cc
  assemble_inv info (some s) (some d) none rules config a h = absurd cc
  assemble_inv info (some s) (some d) (some t) none config a h = absurd cc
  assemble_inv info (some s) (some d) (some t) (some r) none a h = absurd cc
  assemble_inv info (some s) (some d) (some t) (some r) (some c) a h =
      (sym (ap (λ x. x.info) (some_inj.0 h)), ap (λ x. some x.auth) (some_inj.0 h))

  pub init_services_inv :
      (info : Info) (files : AppFiles) (master : Bytes) (a : App)
      → init_services k info files master ≡ some a
      → (a.info ≡ info) × (a.auth.secret ≡ app_secret k master info.id)
  unfolding init_services
  init_services_inv info files master a h =
      let (same_info, made) = assemble_inv info _ _ _ _ _ a h in
      (same_info, secret-new_auth files.users_json (app_secret k master info.id) a.auth made)

  pub start_app_inv :
      (info : Info) (made : Bytes → Bool) (m : Manager) (a : App)
      → start_app k info made m ≡ some a
      → (a.info ≡ info) × (a.auth.secret ≡ app_secret k m.master_secret info.id)
  unfolding start_app
  start_app_inv info made m a h = elim (Bool-cases (made info.id)) [
    | inl ok ↦
        init_services_inv info (files_under info.id m) m.master_secret a (sym (rw ok refl) ∙ h)
    | inr bad ↦ absurd (ground (arith, bad))
  ]

  pub running-insert :
      (id at : Bytes) (a : App) (apps : Dict App)
      → is_running k (lookup at apps) ≡ true
      → is_running k (lookup at (insert id a apps)) ≡ true
  running-insert id at a apps h = elim (Bool-cases (same id at)) [
    | inl here ↦ rw (lookup-insert id at a apps, here) refl
    | inr other ↦ rw (lookup-insert id at a apps, other) h
  ]

  pub add_app-Sound :
      (id : Bytes) (a : App) (m : Manager) (master : Bytes)
      → IsApp master (id, a)
      → Sound master m
      → Sound master (add_app id a m)
  add_app-Sound id a m master is h = record {
    each = All-insert (IsApp master) id a m.apps is h.each;
    once = Unique-insert id a m.apps h.once;
    defaulted = running-insert id default_id a m.apps h.defaulted;
    mastered = h.mastered;
  }
