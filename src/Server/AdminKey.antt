-- ===== src/Server/AdminKey.antt =====
-- internal/server/server.go: what no request changes that does not show the admin key.
use firego.Base.{
  ◌≡◌, refl, sym, ap, ◌∙◌, subst, false, Option, none, some, List, [], ◌∷◌, Bytes, lookup, map,
  map-insert, same, All,
}
use firego.Jwt.Token.{Codec}
use firego.Auth.Service.{Bcrypt}
use firego.Rules.Check.{RuleSet}
use firego.Apps.RemoteConfig.{RemoteConfig}
use firego.Apps.Manager.{Info, App, Manager, get_app}
use firego.Apps.Running.{serve}
use firego.Server.Http.{Request, Outside, Response}
use firego.Server.Admin.{require_admin, shown_key}
use firego.Server.Router.{
  Server, Route, preflight, healthz, admin, admin_app, limited, app_only, post_db, on_app,
  handle_request, serve_all, limited_app, push_app, LimitedRoute,
}
use firego.Server.Keeps.{
  SameSetup, on_app-SameSetup, on_limited-SameSetup, handle_db_push-SameSetup,
}
use firego.Server.Histories.{
  limited_use, push_use, limited_app-serve, push_app-serve, resolve_app-serve,
  rate_limited-SameSetup,
}

-- The info, the rules and the configuration of an app.
abbrev pub setup : App → Info × RuleSet × RemoteConfig
setup a = (a.info, a.rules, a.remote_config)

-- The same apps are set up in the same way, and registered on disk as before.
pub record SetUpAs (m m' : Manager) : Type 0 where
  pub same_apps : map (λ entry. setup entry.1) m'.apps ≡ map (λ entry. setup entry.1) m.apps
  pub same_registry : m'.registry ≡ m.registry

as_before : (m : Manager) → SetUpAs m m
as_before m = record { same_apps = refl; same_registry = refl }

setup-SameSetup : (a b : App) → SameSetup a b → setup b ≡ setup a
setup-SameSetup a b ((i, _), r, c) = rw (i, r, c) refl

serve-SetUpAs :
    (id : Bytes) (f : App → App) (o : Option App) (m : Manager)
    → lookup id m.apps ≡ o
    → ((a : App) → SameSetup a (f a))
    → SetUpAs m (serve id f o m)
serve-SetUpAs id f none m e keeps = as_before m
serve-SetUpAs id f (some a) m e keeps = record {
  same_apps = map-insert setup id a (f a) m.apps e (setup-SameSetup a (f a) (keeps a));
  same_registry = refl;
}

module _ (k : Codec) (b : Bcrypt) where
  require_admin-hidden :
      (req : Request) (s : Server) (next : Response × Server)
      → same (shown_key req) s.admin_key ≡ false
      → (require_admin s.admin_key req s next).1 ≡ s
  unfolding require_admin
  require_admin-hidden req s next hidden = rw hidden refl

  handle_request-SetUpAs :
      (route : Route) (req : Request) (out : Outside) (s : Server)
      → same (shown_key req) s.admin_key ≡ false
      → SetUpAs s.mgr (handle_request k b route req out s).1.mgr
  unfolding handle_request get_app
  handle_request-SetUpAs preflight req out s hidden = as_before s.mgr
  handle_request-SetUpAs healthz req out s hidden = as_before s.mgr
  handle_request-SetUpAs (admin route) req out s hidden =
      subst (λ s'. SetUpAs s.mgr s'.mgr) (sym (require_admin-hidden req s _ hidden))
        (as_before s.mgr)
  handle_request-SetUpAs (admin_app route) req out s hidden =
      subst (λ s'. SetUpAs s.mgr s'.mgr) (sym (require_admin-hidden req s _ hidden))
        (as_before s.mgr)
  handle_request-SetUpAs (limited route) req out s hidden =
      subst (SetUpAs s.mgr)
        (sym (limited_app-serve k b route req out (lookup req.app_id s.mgr.apps) s))
        (serve-SetUpAs req.app_id (limited_use k b route req out s) _ s.mgr refl (λ a.
          rate_limited-SameSetup k b req out s.auth_rl a _
            (on_limited-SameSetup k b route req out a)))
  handle_request-SetUpAs (app_only route) req out s hidden =
      subst (SetUpAs s.mgr)
        (sym (
          resolve_app-serve k b req.app_id (lookup req.app_id s.mgr.apps) (on_app k b route req out)
            s.mgr))
        (serve-SetUpAs req.app_id (λ a. (on_app k b route req out a).1) _ s.mgr refl
          (λ a. on_app-SameSetup k b route req out a))
  handle_request-SetUpAs post_db req out s hidden =
      subst (SetUpAs s.mgr) (sym (push_app-serve k b req out (lookup req.app_id s.mgr.apps) s)) (
        serve-SetUpAs req.app_id (push_use k b req out s) _ s.mgr refl (λ a.
          handle_db_push-SameSetup k b req out.now out.milli out.random out.disk s.generator a))

  limited_app_key :
      (route : LimitedRoute) (req : Request) (out : Outside) (o : Option App) (s : Server)
      → (limited_app k b route req out o s).1.admin_key ≡ s.admin_key
  limited_app_key route req out none s = refl
  limited_app_key route req out (some a) s = refl

  push_app_key :
      (req : Request) (out : Outside) (o : Option App) (s : Server)
      → (push_app k b req out o s).1.admin_key ≡ s.admin_key
  push_app_key req out none s = refl
  push_app_key req out (some a) s = refl

  handle_request_key :
      (route : Route) (req : Request) (out : Outside) (s : Server)
      → same (shown_key req) s.admin_key ≡ false
      → (handle_request k b route req out s).1.admin_key ≡ s.admin_key
  unfolding handle_request get_app
  handle_request_key preflight req out s hidden = refl
  handle_request_key healthz req out s hidden = refl
  handle_request_key (admin route) req out s hidden =
      ap (λ s'. s'.admin_key) (require_admin-hidden req s _ hidden)
  handle_request_key (admin_app route) req out s hidden =
      ap (λ s'. s'.admin_key) (require_admin-hidden req s _ hidden)
  handle_request_key (limited route) req out s hidden =
      limited_app_key route req out (lookup req.app_id s.mgr.apps) s
  handle_request_key (app_only route) req out s hidden = refl
  handle_request_key post_db req out s hidden =
      push_app_key req out (lookup req.app_id s.mgr.apps) s

  -- Requests of which none shows the admin key, whatever they are for, leave the apps with the same
  -- ids, names, keys, rules and configurations, in memory and in the registry on disk.
  pub serve_all-SetUpAs :
      (requests : List (Route × Request × Outside)) (s : Server)
      → All (λ r. same (shown_key r.1) s.admin_key ≡ false) requests
      → SetUpAs s.mgr (serve_all k b requests s).mgr
  unfolding serve_all
  serve_all-SetUpAs [] s hidden = as_before s.mgr
  serve_all-SetUpAs ((route, req, out) ∷ more) s hidden =
      let s' = (handle_request k b route req out s).1 in
      let first = handle_request-SetUpAs route req out s hidden.0 in
      let kept = handle_request_key route req out s hidden.0 in
      let rest =
        serve_all-SetUpAs more s'
          (subst (λ key. All (λ r. same (shown_key r.1) key ≡ false) more) (sym kept) hidden.1) in
      record {
        same_apps = rest.same_apps ∙ first.same_apps;
        same_registry = rest.same_registry ∙ first.same_registry;
      }
