-- ===== src/Server/Histories.antt =====
-- internal/server/server.go with internal/apps/manager.go: what requests do to the manager.
use firego.Base.{
  ℕ, ◌≡◌, refl, sym, ap, ◌∙◌, subst, Bool, Bool-cases, Option, none, some, List, [], ◌∷◌, ◌++◌,
  Bytes, lookup, ◌⊎◌, inl, inr, same, codes, Dict,
}
use firego.Jwt.Token.{Codec}
use firego.Auth.Service.{Bcrypt}
use firego.RateLimit.Limiter.{Limiter, allow}
use firego.RateLimit.ClientIp.{client_ip}
use firego.Database.PushId.{Generator}
use firego.Apps.Manager.{
  App, AppFiles, AppError, Manager, no_registry, get_app, create_app, delete_app, new,
}
use firego.Apps.Running.{SameApp, Step, creates, deletes, serves, serve, step, run, Sound}
use firego.Apps.Histories.{run-Sound}
use firego.Apps.Registry.{new-Sound}
use firego.Server.Http.{Request, Outside, Response, decode_texts}
use firego.Server.Database.{handle_db_push}
use firego.Server.Accounts.{rate_limited}
use firego.Server.Admin.{
  require_admin, created, deleted, create_with, handle_create_app, handle_delete_app, shown_key,
}
use firego.Server.Router.{
  Server, new_server, AdminRoute, get_apps, post_apps, get_one_app, delete_one_app, Route,
  preflight, healthz, admin, admin_app, limited, app_only, post_db, on_admin_app, on_app,
  on_limited, on_admin, resolve_app, with_mgr, limited_app, push_app, handle_request, serve_all,
  LimitedRoute,
}
use firego.Server.Keeps.{
  SameSetup, on_app-SameSetup, on_limited-SameSetup, handle_db_push-SameSetup, on_admin_app-SameApp,
}

module _ (k : Codec) (b : Bcrypt) where
  -- The steps that take one manager to another.
  abbrev pub Follows : Manager → Manager → Type 0
  Follows m m' = (xs : List Step) × (m' ≡ run k xs m)

  stays : (m : Manager) → Follows m m
  unfolding run
  stays m = ([], refl)

  one_step : (x : Step) (m : Manager) → Follows m (step k x m)
  unfolding run
  one_step x m = (x ∷ [], refl)

  run-append : (xs ys : List Step) (m : Manager) → run k (xs ++ ys) m ≡ run k ys (run k xs m)
  unfolding run
  run-append [] ys m = refl
  run-append (x ∷ xs) ys m = run-append xs ys (step k x m)

  pub created_mgr : (r : (AppError ⊎ App) × Manager) → (created r).1 ≡ r.1
  created_mgr (inl e, m) = refl
  created_mgr (inr a, m) = refl

  created-Follows :
      (o : Option (Bytes × Bytes)) (out : Outside) (m : Manager)
      → Follows m (create_with k o out m).1
  unfolding step
  created-Follows none out m = stays m
  created-Follows (some (id, name)) out m =
      subst (Follows m)
        (sym
          (created_mgr (create_app k id name out.key_bytes out.now out.made out.left out.disk m)))
        (one_step (creates id name out.key_bytes out.now out.made out.left out.disk) m)

  pub deleted_mgr : (r : Option AppError × Manager) → (deleted r).1 ≡ r.1
  deleted_mgr (none, m) = refl
  deleted_mgr (some e, m) = refl

  on_admin-Follows :
      (route : AdminRoute) (req : Request) (out : Outside) (m : Manager)
      → Follows m (on_admin k b route req out m).1
  unfolding handle_create_app handle_delete_app step
  on_admin-Follows get_apps req out m = stays m
  on_admin-Follows post_apps req out m =
      created-Follows (decode_texts (codes "id") (codes "name") req.body) out m
  on_admin-Follows get_one_app req out m = stays m
  on_admin-Follows delete_one_app req out m =
      subst (Follows m) (sym (deleted_mgr (delete_app k req.app_id out.left out.disk m)))
        (one_step (deletes req.app_id out.left out.disk) m)

  pub resolve_app-serve :
      (id : Bytes) (o : Option App) (next : App → Response × App) (m : Manager)
      → (resolve_app id o next m).1 ≡ serve id (λ a. (next a).1) o m
  resolve_app-serve id none next m = refl
  resolve_app-serve id (some a) next m = refl

  -- A handler that keeps an app's info and secret is a use of the app's services.
  resolve_app-Follows :
      (id : Bytes) (next : App → Response × App) (m : Manager)
      → ((a : App) → SameApp a (next a).1)
      → Follows m (resolve_app id (get_app id m) next m).1
  unfolding step get_app
  resolve_app-Follows id next m keeps =
      subst (Follows m) (sym (resolve_app-serve id (lookup id m.apps) next m))
        (one_step (serves id (λ a. (next a).1) keeps) m)

  pub rate_limited-SameSetup :
      (req : Request) (out : Outside) (l : Limiter) (a : App) (next : Response × App)
      → SameSetup a next.1
      → SameSetup a (rate_limited req out l a next).1.1
  unfolding rate_limited
  rate_limited-SameSetup req out l a next keeps =
      elim (Bool-cases (allow (client_ip req.x_forwarded_for req.remote_addr) out.now l).0) [
        | inl ok ↦ rw ok keeps
        | inr refused ↦ rw refused ((refl, refl), refl, refl)
      ]

  -- What a limited handler and a push do to the app.
  abbrev pub limited_use : LimitedRoute → Request → Outside → Server → App → App
  limited_use route req out s a =
      (rate_limited req out s.auth_rl a (on_limited k b route req out a)).1.1

  abbrev pub push_use : Request → Outside → Server → App → App
  push_use req out s a =
      (handle_db_push k b req out.now out.milli out.random out.disk s.generator a).1.1

  pub limited_app-serve :
      (route : LimitedRoute) (req : Request) (out : Outside) (o : Option App) (s : Server)
      → (limited_app k b route req out o s).1.mgr
        ≡ serve req.app_id (limited_use route req out s) o s.mgr
  limited_app-serve route req out none s = refl
  limited_app-serve route req out (some a) s = refl

  pub push_app-serve :
      (req : Request) (out : Outside) (o : Option App) (s : Server)
      → (push_app k b req out o s).1.mgr ≡ serve req.app_id (push_use req out s) o s.mgr
  push_app-serve req out none s = refl
  push_app-serve req out (some a) s = refl

  require_admin-Follows :
      (req : Request) (s : Server) (r : Response × Manager)
      → Follows s.mgr r.1
      → Follows s.mgr (require_admin s.admin_key req s (with_mgr k b s r)).1.mgr
  unfolding require_admin
  require_admin-Follows req s r follows = elim (Bool-cases (same (shown_key req) s.admin_key)) [
    | inl shown ↦ rw shown follows
    | inr hidden ↦ rw hidden (stays s.mgr)
  ]

  -- A request, whatever it is for, does to the manager what a list of its steps does, each of which
  -- creates or deletes an app, or uses the services of one and keeps its info and its secret.
  handle_request-Follows :
      (route : Route) (req : Request) (out : Outside) (s : Server)
      → (xs : List Step) × ((handle_request k b route req out s).1.mgr ≡ run k xs s.mgr)
  unfolding handle_request step get_app
  handle_request-Follows preflight req out s = stays s.mgr
  handle_request-Follows healthz req out s = stays s.mgr
  handle_request-Follows (admin route) req out s =
      require_admin-Follows req s (on_admin k b route req out s.mgr)
        (on_admin-Follows route req out s.mgr)
  handle_request-Follows (admin_app route) req out s = require_admin-Follows req s _ (
      resolve_app-Follows req.app_id (on_admin_app route req out) s.mgr
        (λ a. on_admin_app-SameApp route req out a))
  handle_request-Follows (limited route) req out s =
      subst (Follows s.mgr) (sym (limited_app-serve route req out (lookup req.app_id s.mgr.apps) s))
        (one_step
          (serves req.app_id (limited_use route req out s) (λ a.
            (rate_limited-SameSetup req out s.auth_rl a _
              (on_limited-SameSetup k b route req out a)).0))
          s.mgr)
  handle_request-Follows (app_only route) req out s =
      resolve_app-Follows req.app_id (on_app k b route req out) s.mgr
        (λ a. (on_app-SameSetup k b route req out a).0)
  handle_request-Follows post_db req out s =
      subst (Follows s.mgr) (sym (push_app-serve req out (lookup req.app_id s.mgr.apps) s)) (
        one_step
          (serves req.app_id (push_use req out s) (λ a.
            (handle_db_push-SameSetup k b req out.now out.milli out.random out.disk s.generator
              a).0))
          s.mgr)

  serve_all-Follows :
      (more : List (Route × Request × Outside)) (s : Server)
      → Follows s.mgr (serve_all k b more s).mgr
  unfolding serve_all
  serve_all-Follows [] s = stays s.mgr
  serve_all-Follows ((route, req, out) ∷ more) s =
      let (xs, first) = handle_request-Follows route req out s in
      let (ys, rest) = serve_all-Follows more (handle_request k b route req out s).1 in
      (xs ++ ys, rest ∙ ap (run k ys) first ∙ sym (run-append xs ys s.mgr))

  -- Whatever requests a server gets whose manager began without a registry, each running app stands
  -- under its own id, which is valid and stands once, and signs with the secret that the manager's
  -- gives for this id; and the default app runs.
  pub serve_all-Sound :
      (dirs : Dict AppFiles) (master : Bytes) (key_bytes : List ℕ) (now : ℕ) (made : Bytes → Bool)
      (disk : Bool) (start : Manager) (admin_key : Bytes) (g : Generator)
      (requests : List (Route × Request × Outside))
      → new k no_registry dirs master key_bytes now made disk ≡ some start
      → Sound k master (serve_all k b requests (new_server start admin_key g)).mgr
  serve_all-Sound dirs master key_bytes now made disk start admin_key g requests begins =
      let (xs, follows) = serve_all-Follows requests (new_server start admin_key g) in
      subst (Sound k master) (sym follows) (
        run-Sound k xs start master
          (new-Sound k dirs master key_bytes now made disk start begins).0)
