-- ===== src/Server/Reads.antt =====
-- internal/server/server.go: what `handleDBGet` answers.
use firego.Base.{
  ℕ, ◌≡◌, refl, sym, ap, ◌∙◌, Bool, true, false, not, some, List, [], ◌∷◌, append-nil, Bytes, arith,
  if◌then◌else◌,
}
use firego.Json.{Json}
use firego.Paths.{split_path}
use firego.Jwt.Token.{Codec}
use firego.Auth.Service.{User, Bcrypt}
use firego.Rules.Check.{can_read, can_write}
use firego.Database.Tree.{get_at}
use firego.Database.Store.{Db, set, get}
use firego.Database.Effects.{get-set}
use firego.Apps.Manager.{App}
use firego.Server.Http.{Request, Response, refusal, reply}
use firego.Server.Database.{
  validate_db_path, auth_ctx, extract_auth, app_auth_route, may_write, with_body, answered,
  handle_db_put, handle_db_get, or_nobody, found_value, read_as,
}
use firego.Server.Guards.{MayWrite}

module _ (k : Codec) (b : Bcrypt) where
  may_write-next :
      (req : Request) (user : User) (app : App) (state : App) (next : Response × App)
      → validate_db_path req.path ≡ true
      → can_write app.rules req.path (auth_ctx (some user)) ≡ true
      → may_write k b req (some user) app state next ≡ next
  may_write-next req user app state next valid granted = rw (valid, granted) refl

  -- A PUT that is let through is answered by what the database does.
  pub handle_db_put-answered :
      (req : Request) (now : ℕ) (disk : Bool) (app : App) (v : Json)
      → MayWrite k b req now app
      → req.body ≡ some v
      → handle_db_put k b req now disk app
        ≡ answered k b (reply 200 v) app (set req.path v disk app.db)
  unfolding handle_db_put
  handle_db_put-answered req now disk app v (user, known, good, valid, granted) body =
      let act : Json → Response × App =
        λ w. answered k b (reply 200 w) app (set req.path w disk app.db) in
      ap
        (λ o.
          app_auth_route k b o app
            (λ u. may_write k b req u app app (with_body k b req.body app act)))
        known
      ∙ may_write-next req user app app (with_body k b req.body app act) valid granted
      ∙ ap (λ o. with_body k b o app act) body

  get_lem :
      (req : Request) (now : ℕ) (app : App)
      → handle_db_get k b req now app ≡ (
          if not (validate_db_path req.path)
          then refusal 400
          else read_as k b req
              (or_nobody k b (extract_auth k b false req.authorization now app))
              app)
  unfolding handle_db_get
  get_lem req now app = refl

  extract_auth_same :
      (header : Bytes) (now : ℕ) (app : App) (db : Db)
      → extract_auth k b false header now (record app { db = db })
        ≡ extract_auth k b false header now app
  unfolding extract_auth
  extract_auth_same header now app db = refl

  reply_inv :
      (valid readable : Bool) (status : ℕ) (v w : Json)
      → (if not valid then refusal 400 else (if not readable then refusal 403 else reply 200 w))
        ≡ reply status v
      → (valid ≡ true) × (readable ≡ true) × (v ≡ w)
  reply_inv valid readable status v w h = ground (arith, h)

  -- A GET is answered with a value only if its path is valid and the rules let the user of its token
  -- read there, or nobody if it has no token that verifies; and the value is what the database holds
  -- there, or null.
  pub handle_db_get-reply :
      (req : Request) (now status : ℕ) (app : App) (v : Json)
      → handle_db_get k b req now app ≡ reply status v
      → (validate_db_path req.path ≡ true)
        × (can_read app.rules req.path
              (auth_ctx (or_nobody k b (extract_auth k b false req.authorization now app)))
            ≡ true)
        × (v ≡ found_value k b (get req.path app.db))
  handle_db_get-reply req now status app v h =
      reply_inv (validate_db_path req.path)
        (can_read app.rules req.path
          (auth_ctx (or_nobody k b (extract_auth k b false req.authorization now app))))
        status v (found_value k b (get req.path app.db)) (sym (get_lem req now app) ∙ h)

  pub handle_db_get-granted :
      (req : Request) (now : ℕ) (app : App)
      → validate_db_path req.path ≡ true
      → can_read app.rules req.path
          (auth_ctx (or_nobody k b (extract_auth k b false req.authorization now app)))
        ≡ true
      → handle_db_get k b req now app ≡ reply 200 (found_value k b (get req.path app.db))
  handle_db_get-granted req now app valid readable = get_lem req now app ∙ rw (valid, readable) refl

  -- After a PUT below the root that is let through, decodes and is saved, a GET of the same request
  -- is answered with the value of its body, if the rules let the user of its token, or nobody, read
  -- there at that time.
  pub handle_db_get-handle_db_put :
      (req : Request) (now later : ℕ) (app : App) (v : Json) (key : Bytes) (segs : List Bytes)
      → MayWrite k b req now app
      → req.body ≡ some v
      → split_path req.path ≡ key ∷ segs
      → can_read app.rules req.path
          (auth_ctx (or_nobody k b (extract_auth k b false req.authorization later app)))
        ≡ true
      → handle_db_get k b req later (handle_db_put k b req now true app).1 ≡ reply 200 v
  unfolding get_at
  handle_db_get-handle_db_put req now later app v key segs may body e readable =
      let db' = (set req.path v true app.db).1 in
      let app' : App = record app { db = db' } in
      let stored : get req.path db' ≡ some v =
        get-set req.path req.path key segs [] v true app.db e (e ∙ sym (append-nil (key ∷ segs))) in
      ap (λ r. handle_db_get k b req later r.1) (handle_db_put-answered req now true app v may body)
      ∙ get_lem req later app'
      ∙ rw (may.3, extract_auth_same req.authorization later app db', readable)
          (ap (λ o. reply 200 (found_value k b o)) stored)
