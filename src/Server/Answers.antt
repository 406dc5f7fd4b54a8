-- ===== src/Server/Answers.antt =====
-- internal/server/server.go: when a GET of a database is answered with a value, and when a stream is
-- opened.
use firego.Base.{
  ℕ, ◌≡◌, ◌≢◌, ◌↔◌, refl, sym, ap, ◌∙◌, true, false, Option, Option-cases, some, Bytes, inl, inr,
  All, trim, ◌∷◌,
}
use firego.Json.{Json}
use firego.Paths.{slash, split_path}
use firego.Jwt.Token.{Codec}
use firego.Auth.Service.{User, Bcrypt}
use firego.Realtime.Hub.{Event, Hub}
use firego.Rules.Check.{can_read}
use firego.Database.Store.{get}
use firego.Apps.Manager.{App, get_app}
use firego.Server.Http.{Request, Outside, Response, refusal, reply}
use firego.Server.Database.{auth_ctx, extract_auth, or_nobody, found_value}
use firego.Server.Stream.{snapshot_of}
use firego.Server.Reads.{handle_db_get-reply, handle_db_get-granted}
use firego.Server.Readers.{
  IsPlain, validate_iff, Reader, extract_auth-Reader, Reader-extract_auth, MayRead, can_read_iff,
}
use firego.Server.Router.{
  Server, AppRoute, app_only, get_db, on_app, with_mgr, resolve_app, handle_request,
}

module _ (k : Codec) (b : Bcrypt) where
  -- The app of a request runs, and the rules let the user whose token the request has, or nobody,
  -- read at a path of it.
  abbrev pub ReadsAt : Bytes → Request → Outside → Server → App → Type 0
  ReadsAt path req out s a =
      (get_app req.app_id s.mgr ≡ some a)
      × ((user : Option User) × Reader k b req.authorization out.now a user
          × MayRead a.rules path (auth_ctx user))

  abbrev pub Gets : Request → Outside → Server → Json → Type 0
  Gets req out s v =
      (a : App) × ReadsAt req.path req out s a
      × All IsPlain (split_path req.path)
      × (v ≡ found_value k b (get req.path a.db))

  abbrev pub Streams : Request → Outside → Server → ℕ → Option Event → Type 0
  Streams req out s id ev =
      (a : App) × ReadsAt (slash ∷ trim slash req.path) req out s a
      × ((h : Hub) × (a.db.hub ≡ some h) × (id ≡ h.fresh))
      × (ev ≡ snapshot_of (slash ∷ trim slash req.path) (get (slash ∷ trim slash req.path) a.db))

  served : AppRoute → Request → Outside → Server → Option App → Response
  served route req out s o =
      (with_mgr k b s (resolve_app req.app_id o (on_app k b route req out) s.mgr)).0

  request_served :
      (route : AppRoute) (req : Request) (out : Outside) (s : Server)
      → (handle_request k b (app_only route) req out s).0
        ≡ served route req out s (get_app req.app_id s.mgr)
  unfolding handle_request served
  request_served route req out s = refl

  -- An answer of an app's route that is no refusal comes from its handler, at a running app.
  app_answers :
      (route : AppRoute) (req : Request) (out : Outside) (s : Server) (r : Response)
      → r ≢ refusal 404
      → (handle_request k b (app_only route) req out s).0 ≡ r
      → (a : App) × (get_app req.app_id s.mgr ≡ some a) × ((on_app k b route req out a).0 ≡ r)
  unfolding served
  app_answers route req out s r other h = elim (Option-cases (get_app req.app_id s.mgr)) [
    | inl e ↦
        absurd (other (sym h ∙ request_served route req out s ∙ ap (served route req out s) e))
    | inr (a, e) ↦
        (a, e, ap (served route req out s) (sym e) ∙ sym (request_served route req out s) ∙ h)
  ]

  app_answered :
      (route : AppRoute) (req : Request) (out : Outside) (s : Server) (a : App)
      → get_app req.app_id s.mgr ≡ some a
      → (handle_request k b (app_only route) req out s).0 ≡ (on_app k b route req out a).0
  unfolding served
  app_answered route req out s a e = request_served route req out s ∙ ap (served route req out s) e

  reads :
      (path : Bytes) (req : Request) (out : Outside) (s : Server) (a : App)
      → get_app req.app_id s.mgr ≡ some a
      → can_read a.rules path
          (auth_ctx (or_nobody k b (extract_auth k b false req.authorization out.now a)))
        ≡ true
      → ReadsAt path req out s a
  reads path req out s a found granted =
      let user = or_nobody k b (extract_auth k b false req.authorization out.now a) in
      (
        found,
        (
          user,
          extract_auth-Reader k b req.authorization out.now a,
          (can_read_iff a.rules path (auth_ctx user)).0 granted,
        ),
      )

  grants :
      (path : Bytes) (req : Request) (out : Outside) (s : Server) (a : App)
      → ReadsAt path req out s a
      → can_read a.rules path
          (auth_ctx (or_nobody k b (extract_auth k b false req.authorization out.now a)))
        ≡ true
  grants path req out s a (found, (user, reader, may)) =
      ap (λ u. can_read a.rules path (auth_ctx u))
        (Reader-extract_auth k b req.authorization out.now a user reader)
      ∙ (can_read_iff a.rules path (auth_ctx user)).1 may

  -- A GET of a database is answered with a value exactly if the app runs, each segment of the path is
  -- plain, and the app's rules let the user whose token the request has, or nobody if it has none
  -- that verifies at the app, read there; and the value is what the database holds there, or null.
  pub get_db_iff :
      (req : Request) (out : Outside) (s : Server) (v : Json)
      → ((handle_request k b (app_only get_db) req out s).0 ≡ reply 200 v) ↔ Gets req out s v
  get_db_iff req out s v = (
    λ h.
        let (a, found, answer) = app_answers get_db req out s (reply 200 v) (λ e. cc) h in
        let (valid, granted, value) = handle_db_get-reply k b req out.now 200 a v answer in
        (a, reads req.path req out s a found granted, (validate_iff req.path).0 valid, value),
    λ g.
        let (a, may, plain, value) = g in
        app_answered get_db req out s a may.0
        ∙ handle_db_get-granted k b req out.now a ((validate_iff req.path).1 plain)
            (grants req.path req out s a may)
        ∙ ap (reply 200) (sym value),
  )
