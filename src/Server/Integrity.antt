-- ===== src/Server/Integrity.antt =====
-- internal/server/server.go: what has to be shown to change the data of an app.
use firego.Base.{
  ◌≡◌, refl, sym, ap, ◌∙◌, subst, true, Bool-cases, insert, some, ◌⊎◌, inl, inr, same, same_iff,
  same_refl, Bytes, lookup-insert,
}
use firego.Jwt.Token.{Codec}
use firego.Auth.Service.{Bcrypt}
use firego.RateLimit.Limiter.{allow}
use firego.RateLimit.ClientIp.{client_ip}
use firego.Apps.Manager.{App, Manager, get_app}
use firego.Server.Http.{Request, Outside, Response}
use firego.Server.Guards.{push_new, handle, MayWrite, handle-MayWrite}
use firego.Server.Accounts.{rate_limited}
use firego.Server.Admin.{require_admin, shown_key}
use firego.Server.Data.{
  SameData, same_data, gated, Guarded, kept_or, on_limited-SameData, on_app-Guarded,
}
use firego.Server.Isolation.{get_app-handle_request}
use firego.Server.Router.{
  Server, Route, preflight, healthz, admin, admin_app, limited, app_only, post_db, on_app,
  on_limited, with_mgr, limited_app, push_app, resolve_app, handle_request,
}

-- The app under an id still runs, with the same data.
abbrev pub Keeps : Bytes → App → Manager → Type 0
Keeps id a m = (a' : App) × (get_app id m ≡ some a') × SameData a a'

-- A request has the key of the administrator.
abbrev pub ShowsKey : Request → Server → Type 0
ShowsKey req s = same (shown_key req) s.admin_key ≡ true

module _ (k : Codec) (b : Bcrypt) where
  -- The data of an app are kept, or the request may write them, or is the administrator's.
  abbrev pub Answered : Bytes → App → Request → Outside → Server → Manager → Type 0
  Answered id a req out s m = Keeps id a m ⊎ MayWrite k b req out.now a ⊎ ShowsKey req s

  stored :
      (id : Bytes) (a a' : App) (req : Request) (out : Outside) (s : Server) (m : Manager)
      → Guarded k b req out a a'
      → Answered id a req out s (record m { apps = insert id a' m.apps })
  unfolding get_app
  stored id a a' req out s m (inr may) = inr (inl may)
  stored id a a' req out s m (inl kept) =
      inl (a', rw (lookup-insert id id a' m.apps, same_refl id) refl, kept)

  admin-Answered :
      (id : Bytes) (a : App) (req : Request) (out : Outside) (s : Server) (r : Response × Manager)
      → get_app id s.mgr ≡ some a
      → Answered id a req out s (require_admin s.admin_key req s (with_mgr k b s r)).1.mgr
  unfolding require_admin
  admin-Answered id a req out s r found = elim (Bool-cases (same (shown_key req) s.admin_key)) [
    | inl shown ↦ inr (inr shown)
    | inr hidden ↦ rw hidden (inl (a, found, same_data a))
  ]

  own_app :
      (route : Route) (req : Request) (out : Outside) (s : Server) (a : App)
      → get_app req.app_id s.mgr ≡ some a
      → Answered req.app_id a req out s (handle_request k b route req out s).1.mgr
  unfolding handle_request rate_limited handle
  own_app preflight req out s a found = inl (a, found, same_data a)
  own_app healthz req out s a found = inl (a, found, same_data a)
  own_app (admin route) req out s a found = admin-Answered req.app_id a req out s _ found
  own_app (admin_app route) req out s a found = admin-Answered req.app_id a req out s _ found
  own_app (limited route) req out s a found =
      let verdict = allow (client_ip req.x_forwarded_for req.remote_addr) out.now s.auth_rl in
      subst (Answered req.app_id a req out s)
        (sym (ap (λ o. (limited_app k b route req out o s).1.mgr) found))
        (stored req.app_id a _ req out s s.mgr (
          inl (
            gated (SameData a) verdict.0 (on_limited k b route req out a) verdict.1 a (same_data a)
              (on_limited-SameData k b route req out a))))
  own_app (app_only route) req out s a found =
      subst (Answered req.app_id a req out s)
        (sym (ap (λ o. (resolve_app req.app_id o (on_app k b route req out) s.mgr).1) found))
        (stored req.app_id a _ req out s s.mgr (on_app-Guarded k b route req out s.generator a))
  own_app post_db req out s a found =
      subst (Answered req.app_id a req out s)
        (sym (ap (λ o. (push_app k b req out o s).1.mgr) found))
        (stored req.app_id a _ req out s s.mgr (
          kept_or k b (λ x. x.1) _ (s.generator, a)
            (handle-MayWrite k b (push_new out.milli out.random) req out.now out.disk s.generator
              a)))

  -- A request, whatever it is for, leaves each running app running with the database that it has, in
  -- memory and in its file, unless it shows the key of the administrator, or is for this app with a
  -- token that verifies there, a valid path and rules that let the token's user write.
  pub handle_request-Keeps :
      (route : Route) (req : Request) (out : Outside) (s : Server) (id : Bytes) (a : App)
      → get_app id s.mgr ≡ some a
      → Keeps id a (handle_request k b route req out s).1.mgr
        ⊎ ((req.app_id ≡ id) × MayWrite k b req out.now a)
        ⊎ ShowsKey req s
  handle_request-Keeps route req out s id a found = elim (Bool-cases (same req.app_id id)) [
    | inr apart ↦ inl (a, get_app-handle_request k b id a route req out s apart found, same_data a)
    | inl own ↦
        let e = (same_iff req.app_id id).0 own in
        let kept = own_app route req out s a (ap (λ j. get_app j s.mgr) e ∙ found) in
        elim (subst (λ j. Answered j a req out s (handle_request k b route req out s).1.mgr) e
          kept) [
            | inl keeps ↦ inl keeps
            | inr (inl may) ↦ inr (inl (e, may))
            | inr (inr shown) ↦ inr (inr shown)
          ]
  ]
