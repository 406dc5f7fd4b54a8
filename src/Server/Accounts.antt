-- ===== src/Server/Accounts.antt =====
-- internal/server/server.go: the handlers of accounts, and the limit on two of them.
use firego.Base.{
  Bool, true, Option, none, some, Bytes, codes, has_prefix, drop, length, ◌⊎◌, inl, inr,
  if◌then◌else◌,
}
use firego.Json.{bool, obj, end, field}
use firego.Jwt.Token.{Codec}
use firego.Auth.Service.{User, Service, Bcrypt, AuthError, email_taken, register, login, logout}
use firego.RateLimit.Limiter.{Limiter, allow}
use firego.RateLimit.ClientIp.{client_ip}
use firego.Apps.Manager.{App}
use firego.Server.Http.{
  Request, Outside, Response, refusal, reply, signed_in, own_account, decode_texts,
}
use firego.Server.Database.{bearer, extract_auth, app_auth_route}

-- strings.TrimPrefix
abbrev pub trim_prefix : Bytes → Bytes → Bytes
trim_prefix prefix s = if has_prefix s prefix then drop (length prefix) s else s

-- map[string]bool{key: true}
abbrev pub done_reply : Bytes → Response
done_reply key = reply 200 (obj (field key (bool true) end))

-- The status of an error of `Register`.
abbrev pub register_status : AuthError → Response
register_status email_taken = refusal 409
register_status _ = refusal 400

abbrev pub registered : App → (AuthError ⊎ User × Bytes) × Service → Response × App
registered app (inl e, auth) = (register_status e, record app { auth = auth })
registered app (inr (user, token), auth) = (signed_in 201 user token, record app { auth = auth })

abbrev pub logged_in : AuthError ⊎ User × Bytes → Response
logged_in (inl e) = refusal 401
logged_in (inr (user, token)) = signed_in 200 user token

abbrev pub logged_out : App → Bool × Service → Response × App
logged_out app (ok, auth) =
    (if ok then done_reply (codes "logged_out") else refusal 500, record app { auth = auth })

module _ (k : Codec) (b : Bcrypt) where
  abbrev pub register_with : Option (Bytes × Bytes) → Outside → App → Response × App
  register_with none out app = (refusal 400, app)
  register_with (some (email, password)) out app =
      registered app (register k b email password out.draw out.now out.disk app.auth)

  -- `handleRegister`
  unfoldable pub handle_register : Request → Outside → App → Response × App
  unfolding register
  handle_register req out app =
      register_with (decode_texts (codes "email") (codes "password") req.body) out app

  abbrev pub login_with : Option (Bytes × Bytes) → Outside → App → Response
  login_with none out app = refusal 400
  login_with (some (email, password)) out app =
      logged_in (login k b email password out.draw out.now app.auth)

  -- `handleLogin`, which changes nothing.
  unfoldable pub handle_login : Request → Outside → App → Response
  unfolding login
  handle_login req out app =
      login_with (decode_texts (codes "email") (codes "password") req.body) out app

  -- `handleLogout`, behind its route.
  unfoldable pub handle_logout : Request → Outside → App → Response × App
  unfolding extract_auth logout
  handle_logout req out app =
      app_auth_route k b (extract_auth k b true req.authorization out.now app) app (λ user.
        logged_out app (logout k b (trim_prefix bearer req.authorization) out.now app.auth))

  abbrev pub me_of : Option User → Response
  me_of none = refusal 401
  me_of (some user) = own_account user

  -- `handleMe`, behind its route.
  unfoldable pub handle_me : Request → Outside → App → Response × App
  unfolding extract_auth
  handle_me req out app =
      app_auth_route k b (extract_auth k b true req.authorization out.now app) app
        (λ user. (me_of user, app))

-- `rateLimited`; `S` is what the handler changes.
unfoldable pub rate_limited {ℓ} :
    {S : Type ℓ} → Request → Outside → Limiter → S → Response × S → Response × (Limiter × S)
unfolding allow client_ip
rate_limited req out l state next =
    let (ok, l') = allow (client_ip req.x_forwarded_for req.remote_addr) out.now l in
    if ok then (next.0, (l', next.1)) else (refusal 429, (l', state))
