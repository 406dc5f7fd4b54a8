-- ===== src/Server/Database.antt =====
-- internal/server/server.go: the handlers of an app's database. The state is the app, with the
-- generator of push keys, which all apps share.
use firego.Base.{
  ℕ, Bool, true, false, not, ◌&&◌, ◌||◌, Option, none, some, List, [], ◌∷◌, Bytes, codes, same,
  is_empty, has_prefix, drop, length, trim, split, in_range, ◌==◌, if◌then◌else◌, ◌⊎◌, inl, inr,
}
use firego.Json.{Json, encode_map, null, bool, str, obj, end, field}
use firego.Paths.{slash}
use firego.Jwt.Token.{Codec}
use firego.Auth.Service.{User, Bcrypt, AuthError, verify}
use firego.Rules.Eval.{AuthCtx}
use firego.Rules.Check.{can_read, can_write}
use firego.Apps.Manager.{App}
use firego.Server.Http.{Request, Response, refusal, reply, decode_map}
use firego.Database.PushId.{Generator}
use firego.Database.Store.{Db, get, set, update, delete, push}

abbrev pub is_segment_byte : ℕ → Bool
is_segment_byte c =
    in_range b'a' b'z' c
    || in_range b'A' b'Z' c
    || in_range b'0' b'9' c
    || c == b'_'
    || c == b'-'
    || c == b'.'

abbrev pub all_segment_bytes : Bytes → Bool
all_segment_bytes [] = true
all_segment_bytes (c ∷ s) = let rest = all_segment_bytes s in is_segment_byte c && rest

abbrev pub is_segment : Bytes → Bool
is_segment seg =
    not (is_empty seg || same seg (codes ".") || same seg (codes "..")) && all_segment_bytes seg

abbrev pub all_segments : List Bytes → Bool
all_segments [] = true
all_segments (seg ∷ segs) = let rest = all_segments segs in is_segment seg && rest

-- `validateDBPath`: true if it returns no error.
unfoldable pub validate_db_path : Bytes → Bool
unfolding trim split
validate_db_path p = let q = trim slash p in is_empty q || all_segments (split slash q)

abbrev pub bearer : Bytes
bearer = codes "Bearer "

-- `authCtx`
abbrev pub auth_ctx : Option User → AuthCtx
auth_ctx none = record { uid = []; email = []; authed = false }
auth_ctx (some u) = record { uid = u.uid; email = u.email; authed = true }

abbrev pub anonymous : Bool → Option (Option User)
anonymous require = if require then none else some none

module _ (k : Codec) (b : Bcrypt) where
  abbrev pub verified : Bool → AuthError ⊎ User → Option (Option User)
  verified require (inl e) = anonymous require
  verified require (inr u) = some (some u)

  -- `extractAuth`: `none` if it has answered 401.
  unfoldable pub extract_auth : Bool → Bytes → ℕ → App → Option (Option User)
  extract_auth require header now app =
      let token = drop (length bearer) header in
      if not (has_prefix header bearer) || is_empty token
      then anonymous require
      else verified require (verify k b token now app.auth)

  -- `appAuthRoute`, once the app is found; `S` is what the handler changes.
  abbrev pub app_auth_route {ℓ} :
      {S : Type ℓ} → Option (Option User) → S → (Option User → Response × S) → Response × S
  app_auth_route none state next = (refusal 401, state)
  app_auth_route (some user) state next = next user

  -- What the writing handlers do first.
  abbrev pub may_write {ℓ} :
      {S : Type ℓ} → Request → Option User → App → S → Response × S → Response × S
  may_write req user app state next =
      if not (validate_db_path req.path)
      then (refusal 400, state)
      else if not (can_write app.rules req.path (auth_ctx user))
      then (refusal 403, state)
      else next

  abbrev pub with_body {ℓ κ} :
      {V : Type κ} {S : Type ℓ} → Option V → S → (V → Response × S) → Response × S
  with_body none state next = (refusal 400, state)
  with_body (some v) state next = next v

  abbrev pub answered : Response → App → Bool × Db → Response × App
  answered ok app (saved, db) = (if saved then ok else refusal 500, record app { db = db })

  -- `handleDBPut`, behind its route.
  unfoldable pub handle_db_put : Request → ℕ → Bool → App → Response × App
  unfolding extract_auth validate_db_path
  handle_db_put req now disk app =
      app_auth_route (extract_auth true req.authorization now app) app (λ user.
        may_write req user app app
          (with_body req.body app (λ v. answered (reply 200 v) app (set req.path v disk app.db))))

  -- `handleDBPatch`, behind its route.
  unfoldable pub handle_db_patch : Request → ℕ → Bool → App → Response × App
  unfolding extract_auth validate_db_path
  handle_db_patch req now disk app =
      app_auth_route (extract_auth true req.authorization now app) app (λ user.
        may_write req user app app (
          with_body (decode_map req.body) app
            (λ v. answered (reply 200 (encode_map v)) app (update req.path v disk app.db))))

  abbrev pub pushed : App → Option Bytes × Generator × Db → Response × (Generator × App)
  pushed app (none, g, db) = (refusal 500, (g, record app { db = db }))
  pushed app (some key, g, db) =
      (reply 201 (obj (field (codes "name") (str key) end)), (g, record app { db = db }))

  -- `handleDBPush`, behind its route, with the clock of the key in milliseconds.
  unfoldable pub handle_db_push :
      Request → ℕ → ℕ → List ℕ → Bool → Generator → App → Response × (Generator × App)
  unfolding extract_auth validate_db_path
  handle_db_push req now milli random disk g app =
      app_auth_route (extract_auth true req.authorization now app) (g, app)
        (λ user.
          may_write req user app (g, app)
            (with_body req.body (g, app)
              (λ v. pushed app (push milli random req.path v disk g app.db))))

  -- `handleDBDelete`, behind its route.
  unfoldable pub handle_db_delete : Request → ℕ → Bool → App → Response × App
  unfolding extract_auth validate_db_path
  handle_db_delete req now disk app =
      app_auth_route (extract_auth true req.authorization now app) app (λ user.
        may_write req user app app (
          answered (reply 200 (obj (field (codes "deleted") (bool true) end))) app
            (delete req.path disk app.db)))

  -- `user, _ := s.extractAuth(...)`
  abbrev pub or_nobody : Option (Option User) → Option User
  or_nobody none = none
  or_nobody (some user) = user

  abbrev pub found_value : Option Json → Json
  found_value none = null
  found_value (some v) = v

  abbrev pub read_as : Request → Option User → App → Response
  read_as req user app =
      if not (can_read app.rules req.path (auth_ctx user))
      then refusal 403
      else reply 200 (found_value (get req.path app.db))

  -- `handleDBGet`
  unfoldable pub handle_db_get : Request → ℕ → App → Response
  unfolding extract_auth validate_db_path
  handle_db_get req now app =
      if not (validate_db_path req.path)
      then refusal 400
      else read_as req (or_nobody (extract_auth false req.authorization now app)) app
