-- ===== src/Server/Router.antt =====
-- internal/server/server.go: `Server`, its routes and what is done before their handlers.
use firego.Base.{Option, none, some, List, [], ◌∷◌, Bytes, codes, insert}
use firego.Json.{str, obj, end, field}
use firego.Jwt.Token.{Codec}
use firego.Auth.Service.{Bcrypt}
use firego.RateLimit.Limiter.{Limiter, new_limiter}
use firego.Database.PushId.{Generator}
use firego.Apps.Manager.{App, Manager, get_app}
use firego.Server.Http.{Request, Outside, Response, refusal, reply, no_content}
use firego.Server.Accounts.{handle_register, handle_login, handle_logout, handle_me, rate_limited}
use firego.Server.Objects.{
  handle_storage_list, handle_storage_put, handle_storage_get, handle_storage_delete,
}
use firego.Server.Admin.{
  require_admin, handle_list_apps, handle_create_app, handle_get_app, handle_delete_app,
  handle_get_rules, handle_put_rules, handle_get_remote_config, handle_put_remote_config,
  handle_patch_remote_config, handle_delete_remote_config_key, handle_sdk_config,
}
use firego.Server.Database.{
  handle_db_get, handle_db_put, handle_db_patch, handle_db_push, handle_db_delete,
}
use firego.Server.Stream.{handle_stream}

-- `Server`, with the state of the generator of push keys, which is a variable of its package.
pub record Server : Type 0 where
  pub mgr : Manager
  pub auth_rl : Limiter
  pub admin_key : Bytes
  pub generator : Generator

-- ratelimit.New(10, time.Minute)
abbrev pub auth_limiter : Limiter
auth_limiter = new_limiter 10 60000000000

-- `New`
abbrev pub new_server : Manager → Bytes → Generator → Server
new_server mgr admin_key g = record {
  mgr = mgr;
  auth_rl = auth_limiter;
  admin_key = admin_key;
  generator = g;
}

-- The routes behind the admin key that change a manager, or look at it.
pub data AdminRoute : Type 0 where
  get_apps : AdminRoute
  post_apps : AdminRoute
  get_one_app : AdminRoute
  delete_one_app : AdminRoute

-- The routes behind the admin key that are about one app.
pub data AdminAppRoute : Type 0 where
  get_rules : AdminAppRoute
  put_rules : AdminAppRoute
  get_config : AdminAppRoute
  put_config : AdminAppRoute
  patch_config : AdminAppRoute
  delete_config_key : AdminAppRoute

-- The routes of the clients of an app, but the two that are limited and the one that draws a key.
pub data AppRoute : Type 0 where
  get_sdk_config : AppRoute
  get_client_config : AppRoute
  post_logout : AppRoute
  get_me : AppRoute
  get_db : AppRoute
  put_db : AppRoute
  patch_db : AppRoute
  delete_db : AppRoute
  get_stream : AppRoute
  list_storage : AppRoute
  post_storage : AppRoute
  get_storage : AppRoute
  delete_storage : AppRoute

-- The limited routes.
pub data LimitedRoute : Type 0 where
  post_register : LimitedRoute
  post_login : LimitedRoute

-- What a request is for. A preflight has the method OPTIONS.
pub data Route : Type 0 where
  preflight : Route
  healthz : Route
  admin : AdminRoute → Route
  admin_app : AdminAppRoute → Route
  limited : LimitedRoute → Route
  app_only : AppRoute → Route
  post_db : Route

-- The handler's app as it is after it, where it changes it.
abbrev pub unchanged {ℓ} : {S : Type ℓ} → S → Response → Response × S
unchanged state r = (r, state)

abbrev pub on_admin_app : AdminAppRoute → Request → Outside → App → Response × App
on_admin_app get_rules req out app = unchanged app (handle_get_rules app)
on_admin_app put_rules req out app = handle_put_rules req out app
on_admin_app get_config req out app = unchanged app (handle_get_remote_config app)
on_admin_app put_config req out app = handle_put_remote_config req out app
on_admin_app patch_config req out app = handle_patch_remote_config req out app
on_admin_app delete_config_key req out app = handle_delete_remote_config_key req out app

-- The app is found, and changed in place.
abbrev pub store_app : Bytes → Response × App → Manager → Response × Manager
store_app id (r, app) m = (r, record m { apps = insert id app m.apps })

-- `resolveApp`, and `mgr.Get` in the admin handlers: `next` is given the app.
abbrev pub resolve_app : Bytes → Option App → (App → Response × App) → Manager → Response × Manager
resolve_app id none next m = (refusal 404, m)
resolve_app id (some app) next m = store_app id (next app) m

module _ (k : Codec) (b : Bcrypt) where
  abbrev pub on_admin : AdminRoute → Request → Outside → Manager → Response × Manager
  on_admin get_apps req out m = unchanged m (handle_list_apps m)
  on_admin post_apps req out m = handle_create_app k req out m
  on_admin get_one_app req out m = unchanged m (handle_get_app req m)
  on_admin delete_one_app req out m = handle_delete_app k req out m

  abbrev pub on_app : AppRoute → Request → Outside → App → Response × App
  on_app get_sdk_config req out app = unchanged app (handle_sdk_config req app)
  on_app get_client_config req out app = unchanged app (handle_get_remote_config app)
  on_app post_logout req out app = handle_logout k b req out app
  on_app get_me req out app = handle_me k b req out app
  on_app get_db req out app = unchanged app (handle_db_get k b req out.now app)
  on_app put_db req out app = handle_db_put k b req out.now out.disk app
  on_app patch_db req out app = handle_db_patch k b req out.now out.disk app
  on_app delete_db req out app = handle_db_delete k b req out.now out.disk app
  on_app get_stream req out app = handle_stream k b req out.now app
  on_app list_storage req out app = unchanged app (handle_storage_list req app)
  on_app post_storage req out app = handle_storage_put k b req out app
  on_app get_storage req out app = unchanged app (handle_storage_get req app)
  on_app delete_storage req out app = handle_storage_delete k b req out app

  abbrev pub on_limited : LimitedRoute → Request → Outside → App → Response × App
  on_limited post_register req out app = handle_register k b req out app
  on_limited post_login req out app = unchanged app (handle_login k b req out app)

  abbrev pub with_mgr : Server → Response × Manager → Response × Server
  with_mgr s (r, m) = (r, record s { mgr = m })

  -- An app handler behind `rateLimited`, for an app that was found.
  abbrev pub limited_app :
      LimitedRoute → Request → Outside → Option App → Server → Response × Server
  limited_app route req out none s = (refusal 404, s)
  limited_app route req out (some app) s =
      let (r, (l, app')) = rate_limited req out s.auth_rl app (on_limited route req out app) in
      with_mgr (record s { auth_rl = l }) (store_app req.app_id (r, app') s.mgr)

  -- The POST to a database, which draws a key.
  abbrev pub push_app : Request → Outside → Option App → Server → Response × Server
  push_app req out none s = (refusal 404, s)
  push_app req out (some app) s =
      let (r, (g, app')) =
        handle_db_push k b req out.now out.milli out.random out.disk s.generator app in
      with_mgr (record s { generator = g }) (store_app req.app_id (r, app') s.mgr)

  -- `Handler`, from `cors` on.
  unfoldable pub handle_request : Route → Request → Outside → Server → Response × Server
  unfolding require_admin rate_limited get_app
  handle_request preflight req out s = (no_content, s)
  handle_request healthz req out s =
      (reply 200 (obj (field (codes "status") (str (codes "ok")) end)), s)
  handle_request (admin route) req out s =
      require_admin s.admin_key req s (with_mgr s (on_admin route req out s.mgr))
  handle_request (admin_app route) req out s = require_admin s.admin_key req s (
      with_mgr s
        (resolve_app req.app_id (get_app req.app_id s.mgr) (on_admin_app route req out) s.mgr))
  handle_request (limited route) req out s = limited_app route req out (get_app req.app_id s.mgr) s
  handle_request (app_only route) req out s =
      with_mgr s (resolve_app req.app_id (get_app req.app_id s.mgr) (on_app route req out) s.mgr)
  handle_request post_db req out s = push_app req out (get_app req.app_id s.mgr) s

  -- Requests one after the other.
  unfoldable pub serve_all : List (Route × Request × Outside) → Server → Server
  unfolding handle_request
  serve_all [] s = s
  serve_all ((route, req, out) ∷ more) s = serve_all more (handle_request route req out s).1
