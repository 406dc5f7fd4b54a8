-- ===== src/Server/Streams.antt =====
-- internal/server/server.go: who gets a stream, and what a PUT sends to it.
use firego.Base.{
  ℕ, ◌≡◌, ◌≢◌, refl, sym, ap, ◌∙◌, true, false, Bool-cases, Option, is_empty, ◌||◌, drop, split,
  none, some, List, [], ◌∷◌, Bytes, codes, same, trim, split-append, has_prefix, All, inl, inr,
  arith,
}
use firego.Paths.{slash, path_of, IsSegment, Lacks-segments}
use firego.Jwt.Token.{Codec}
use firego.Auth.Service.{User, Bcrypt}
use firego.Rules.Check.{can_read, check}
use firego.Rules.Policies.{own_tree, check-own_wildcard}
use firego.Realtime.Hub.{Event, Hub, subscribe}
use firego.Database.Store.{get}
use firego.Apps.Manager.{App}
use firego.Server.Http.{Request, refusal, streaming}
use firego.Server.Database.{
  validate_db_path, all_segments, bearer, auth_ctx, extract_auth, or_nobody, handle_db_get,
}
use firego.Server.Stream.{stream_prefix, snapshot_of, subscribe_to, stream_as, handle_stream}

-- The path of a request as its segments make it, however many slashes stand around it.
abbrev pub HasPath : Request → List Bytes → Type 0
HasPath req ps = slash ∷ trim slash req.path ≡ path_of ps

validate-path :
    (req : Request) (p : Bytes) (ps : List Bytes)
    → All IsSegment (p ∷ ps)
    → HasPath req (p ∷ ps)
    → validate_db_path req.path ≡ all_segments (p ∷ ps)
unfolding validate_db_path
validate-path req [] ps h e = absurd h.0
validate-path req (c ∷ s) ps h e =
    ap (λ q. is_empty q || all_segments (split slash q)) (ap (drop 1) e)
    ∙ ap all_segments (split-append slash (c ∷ s) ps h.0 (Lacks-segments ps h.1))

module _ (k : Codec) (b : Bcrypt) where
  subscribe_to_inv :
      (prefix : Bytes) (o : Option Hub) (app : App) (id : ℕ) (ev : Option Event)
      → (subscribe_to prefix o app).0 ≡ streaming id ev
      → (h : Hub) × (o ≡ some h) × (id ≡ h.fresh) × (ev ≡ snapshot_of prefix (get prefix app.db))
  unfolding subscribe
  subscribe_to_inv prefix none app id ev h = absurd cc
  subscribe_to_inv prefix (some hub) app id ev h = (hub, refl, cc, cc)

  opens :
      (req : Request) (user : Option User) (app : App)
      → can_read app.rules (stream_prefix req) (auth_ctx user) ≡ true
      → stream_as k b req user app ≡ subscribe_to (stream_prefix req) app.db.hub app
  opens req user app granted = rw granted refl

  refused :
      (req : Request) (user : Option User) (app : App) (id : ℕ) (ev : Option Event)
      → can_read app.rules (stream_prefix req) (auth_ctx user) ≡ false
      → (stream_as k b req user app).0 ≢ streaming id ev
  refused req user app id ev denied h =
      let closed : (stream_as k b req user app).0 ≡ refusal 403 = rw denied refl in cc

  -- A stream that is opened was granted, and begins with what the database holds.
  pub handle_stream-streaming :
      (req : Request) (now : ℕ) (app : App) (id : ℕ) (ev : Option Event)
      → (handle_stream k b req now app).0 ≡ streaming id ev
      → (can_read app.rules
            (stream_prefix req)
            (auth_ctx (or_nobody k b (extract_auth k b false req.authorization now app)))
          ≡ true)
        × ((h : Hub) × (app.db.hub ≡ some h)
            × (id ≡ h.fresh)
            × (ev ≡ snapshot_of (stream_prefix req) (get (stream_prefix req) app.db)))
  unfolding handle_stream
  handle_stream-streaming req now app id ev h =
      let user = or_nobody k b (extract_auth k b false req.authorization now app) in
      elim (Bool-cases (can_read app.rules (stream_prefix req) (auth_ctx user))) [
        | inl granted ↦ (
          granted,
          subscribe_to_inv (stream_prefix req) app.db.hub app id ev
              (ap (λ r. r.0) (sym (opens req user app granted)) ∙ h),
        )
        | inr denied ↦ absurd (refused req user app id ev denied h)
      ]

  pub handle_stream-granted :
      (req : Request) (now : ℕ) (app : App) (h : Hub)
      → can_read app.rules
          (stream_prefix req)
          (auth_ctx (or_nobody k b (extract_auth k b false req.authorization now app)))
        ≡ true
      → app.db.hub ≡ some h
      → (handle_stream k b req now app).0
        ≡ streaming h.fresh (snapshot_of (stream_prefix req) (get (stream_prefix req) app.db))
  unfolding handle_stream subscribe
  handle_stream-granted req now app h granted hub =
      ap (λ r. r.0)
        (opens req (or_nobody k b (extract_auth k b false req.authorization now app)) app granted)
      ∙ ap (λ o. (subscribe_to (stream_prefix req) o app).0) hub

  anonymous_user :
      (header : Bytes) (now : ℕ) (app : App)
      → has_prefix header bearer ≡ false
      → extract_auth k b false header now app ≡ some none
  unfolding extract_auth
  anonymous_user header now app none_shown = rw none_shown refl

  -- Where the rules open `users/$uid` to the user of that id, a request with no bearer token gets the
  -- stream of a path, with any slashes around it, below `users` whose next segment is spelled `$uid`,
  -- with what is stored there, while a GET of the same path is refused as badly spelled.
  pub handle_stream-own_wildcard :
      (req : Request) (now : ℕ) (app : App) (h : Hub) (more : List Bytes)
      → app.rules.root ≡ some own_tree
      → app.db.hub ≡ some h
      → All IsSegment more
      → HasPath req (codes "users" ∷ codes "$uid" ∷ more)
      → has_prefix req.authorization bearer ≡ false
      → ((handle_stream k b req now app).0
          ≡ streaming h.fresh (
              snapshot_of
                (path_of (codes "users" ∷ codes "$uid" ∷ more))
                (get (path_of (codes "users" ∷ codes "$uid" ∷ more)) app.db)))
        × (handle_db_get k b req now app ≡ refusal 400)
  unfolding handle_stream handle_db_get subscribe can_read same
  handle_stream-own_wildcard req now app h more own hub hm path none_shown =
      let segs : All IsSegment (codes "users" ∷ codes "$uid" ∷ more) =
        (omega arith, (omega arith, hm)) in
      let invalid : validate_db_path req.path ≡ false =
        validate-path req (codes "users") (codes "$uid" ∷ more) segs path in
      let granted : check app.rules (stream_prefix req) (codes "read") (auth_ctx none) ≡ true =
        ap (λ p. check app.rules p (codes "read") (auth_ctx none)) path
        ∙ check-own_wildcard (codes "read") (auth_ctx none) app.rules more own refl hm in
      (
        ap (λ o. (stream_as k b req (or_nobody k b o) app).0)
              (anonymous_user req.authorization now app none_shown)
            ∙ ap (λ r. r.0) (opens req none app granted)
            ∙ ap (λ o. (subscribe_to (stream_prefix req) o app).0) hub
            ∙ ap (λ p. streaming h.fresh (snapshot_of p (get p app.db))) path,
        rw invalid refl,
      )
