-- ===== src/Server/Isolation.antt =====
-- internal/server/server.go: a request to one app leaves the others alone.
use firego.Base.{
  ◌≡◌, sym, subst, false, Bool-cases, Option, none, some, Bytes, codes, same, inl, inr,
}
use firego.Jwt.Token.{Codec}
use firego.Auth.Service.{Bcrypt}
use firego.Apps.Manager.{App, Manager, get_app, create_app, delete_app}
use firego.Apps.Others.{Untouched, get_app-serve, get_app-create_app, get_app-delete_app}
use firego.Server.Http.{Request, Outside, Response, decode_texts}
use firego.Server.Admin.{
  require_admin, shown_key, create_with, handle_create_app, handle_delete_app,
}
use firego.Server.Router.{
  Server, AdminRoute, get_apps, post_apps, get_one_app, delete_one_app, Route, preflight, healthz,
  admin, admin_app, limited, app_only, post_db, on_admin_app, on_app, on_admin, resolve_app,
  with_mgr, handle_request,
}
use firego.Server.Histories.{
  limited_use, push_use, limited_app-serve, push_app-serve, resolve_app-serve, created_mgr,
  deleted_mgr,
}

module _ (k : Codec) (b : Bcrypt) (id : Bytes) (a : App) where
  created-Untouched :
      (o : Option (Bytes × Bytes)) (out : Outside) (m : Manager)
      → Untouched id a m (create_with k o out m).1
  created-Untouched none out m here = here
  created-Untouched (some (at, name)) out m here =
      subst (λ m'. get_app id m' ≡ some a)
        (sym (
          created_mgr k b
            (create_app k at name out.key_bytes out.now out.made out.left out.disk m)))
        (get_app-create_app k at name out.key_bytes out.now out.made out.left out.disk id a m here)

  on_admin-Untouched :
      (route : AdminRoute) (req : Request) (out : Outside) (m : Manager)
      → same req.app_id id ≡ false
      → Untouched id a m (on_admin k b route req out m).1
  unfolding handle_create_app handle_delete_app
  on_admin-Untouched get_apps req out m apart here = here
  on_admin-Untouched post_apps req out m apart here =
      created-Untouched (decode_texts (codes "id") (codes "name") req.body) out m here
  on_admin-Untouched get_one_app req out m apart here = here
  on_admin-Untouched delete_one_app req out m apart here =
      subst (λ m'. get_app id m' ≡ some a)
        (sym (deleted_mgr k b (delete_app k req.app_id out.left out.disk m)))
        (get_app-delete_app k req.app_id out.left out.disk id a m apart here)

  require_admin-Untouched :
      (req : Request) (s : Server) (r : Response × Manager)
      → Untouched id a s.mgr r.1
      → Untouched id a s.mgr (require_admin s.admin_key req s (with_mgr k b s r)).1.mgr
  unfolding require_admin
  require_admin-Untouched req s r touches here =
      elim (Bool-cases (same (shown_key req) s.admin_key)) [
        | inl shown ↦ rw shown (touches here)
        | inr hidden ↦ rw hidden here
      ]

  resolve_app-Untouched :
      (at : Bytes) (o : Option App) (next : App → Response × App) (m : Manager)
      → same at id ≡ false
      → Untouched id a m (resolve_app at o next m).1
  resolve_app-Untouched at o next m apart here =
      subst (λ m'. get_app id m' ≡ some a) (sym (resolve_app-serve k b at o next m))
        (get_app-serve at id (λ x. (next x).1) o a m apart here)

  -- A request, whatever it is for and whoever makes it, leaves each running app as it is whose id is
  -- not the one in its path.
  pub get_app-handle_request :
      (route : Route) (req : Request) (out : Outside) (s : Server)
      → same req.app_id id ≡ false
      → get_app id s.mgr ≡ some a
      → get_app id (handle_request k b route req out s).1.mgr ≡ some a
  unfolding handle_request
  get_app-handle_request preflight req out s apart here = here
  get_app-handle_request healthz req out s apart here = here
  get_app-handle_request (admin route) req out s apart here =
      require_admin-Untouched req s _ (on_admin-Untouched route req out s.mgr apart) here
  get_app-handle_request (admin_app route) req out s apart here =
      require_admin-Untouched req s _
        (resolve_app-Untouched req.app_id _ (on_admin_app route req out) s.mgr apart) here
  get_app-handle_request (limited route) req out s apart here =
      subst (λ m'. get_app id m' ≡ some a)
        (sym (limited_app-serve k b route req out (get_app req.app_id s.mgr) s))
        (get_app-serve req.app_id id (limited_use k b route req out s) (get_app req.app_id s.mgr) a
          s.mgr apart here)
  get_app-handle_request (app_only route) req out s apart here =
      resolve_app-Untouched req.app_id (get_app req.app_id s.mgr) (on_app k b route req out) s.mgr
        apart here
  get_app-handle_request post_db req out s apart here =
      subst (λ m'. get_app id m' ≡ some a)
        (sym (push_app-serve k b req out (get_app req.app_id s.mgr) s))
        (get_app-serve req.app_id id (push_use k b req out s) (get_app req.app_id s.mgr) a s.mgr
          apart here)
