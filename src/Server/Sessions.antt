-- ===== src/Server/Sessions.antt =====
-- internal/server/server.go: a registration by a request, and the token that it gives in the next.
use firego.Base.{
  ℕ, ◌+◌, ◌≤◌, ◌≡◌, refl, sym, ap, ◌∙◌, subst, Bool, true, false, not, ◌||◌, Option, none, some,
  some_inj, [], ◌∷◌, ◌++◌, Bytes, codes, lookup, lookup-insert, same_refl, is_empty, has_prefix,
  drop, length, ◌⊎◌, inl, inr, split, if◌then◌else◌,
}
use firego.Jwt.Token.{Codec, unix, parse}
use firego.Auth.Email.{random_hex}
use firego.Auth.Service.{
  User, Service, Bcrypt, AuthError, email_taken, invalid_credentials, user_not_found, weak_input,
  token_revoked, invalid_token, hash_failed, not_saved, token_ttl, register, verify,
}
use firego.Auth.Sessions.{IsDrawn, verify-register}
use firego.RateLimit.Limiter.{Limiter, allow}
use firego.RateLimit.ClientIp.{client_ip}
use firego.Apps.Manager.{App, get_app}
use firego.Server.Http.{Request, Outside, Response, refusal, signed_in, own_account, decode_texts}
use firego.Server.Database.{bearer, extract_auth, app_auth_route}
use firego.Server.Guards.{extract_auth-known}
use firego.Server.Accounts.{
  registered, register_with, register_status, handle_register, me_of, handle_me, rate_limited,
}
use firego.Server.Router.{
  Server, limited, app_only, post_register, get_me, on_app, with_mgr, limited_app, resolve_app,
  handle_request,
}

-- The account and the token of an answer.
abbrev given : Response → Option (User × Bytes)
given (signed_in status user token) = some (user, token)
given r = none

clash {ℓ} : {A : Type ℓ} {r : User × Bytes} → none ≡ some r → A
clash h = absurd cc

refused : (e : AuthError) → given (register_status e) ≡ none
refused email_taken = refl
refused invalid_credentials = refl
refused user_not_found = refl
refused weak_input = refl
refused token_revoked = refl
refused invalid_token = refl
refused hash_failed = refl
refused not_saved = refl

-- What `rate_limited` does with the verdict of its limiter.
abbrev pub gate {ℓ} : {S : Type ℓ} → Bool → Response × S → Limiter → S → Response × (Limiter × S)
gate ok next l state = if ok then (next.0, (l, next.1)) else (refusal 429, (l, state))

admitted {ℓ} :
    {S : Type ℓ} (ok : Bool) (next : Response × S) (l : Limiter) (state : S) (user : User)
    (token : Bytes)
    → (gate ok next l state).0 ≡ signed_in 201 user token
    → (next.0 ≡ signed_in 201 user token) × ((gate ok next l state).1.1 ≡ next.1)
admitted true next l state user token h = (h, refl)
admitted false next l state user token h = clash (ap given h)

registered_inv :
    (a : App) (r : (AuthError ⊎ User × Bytes) × Service) (user : User) (token : Bytes)
    → (registered a r).0 ≡ signed_in 201 user token
    → (r.0 ≡ inr (user, token)) × ((registered a r).1 ≡ record a { auth = r.1 })
registered_inv a (inl e, s) user token h = clash (sym (refused e) ∙ ap given h)
registered_inv a (inr r, s) user token h = (ap inr (some_inj.0 (ap given h)), refl)

module _ (k : Codec) (b : Bcrypt) where
  register_with_inv :
      (o : Option (Bytes × Bytes)) (out : Outside) (a : App) (user : User) (token : Bytes)
      → (register_with k b o out a).0 ≡ signed_in 201 user token
      → (email : Bytes) × (password : Bytes) × ((register k b email password out.draw out.now
            out.disk a.auth).0
          ≡ inr (user, token))
        × ((register_with k b o out a).1
            ≡ record a { auth = (register k b email password out.draw out.now out.disk a.auth).1 })
  register_with_inv none out a user token h = absurd cc
  register_with_inv (some (email, password)) out a user token h =
      let (done, left) = registered_inv a _ user token h in (email, password, done, left)

  pub verify-there :
      (token : Bytes) (now : ℕ) (s : Service) (user : User)
      → verify k b token now s ≡ inr user
      → (not (has_prefix (bearer ++ token) bearer)
          || is_empty (drop (length bearer) (bearer ++ token)))
        ≡ false
  unfolding verify parse split has_prefix
  verify-there [] now s user h = absurd cc
  verify-there (c ∷ token) now s user h = refl

  -- GET me with a token that verifies.
  handle_me-known :
      (token : Bytes) (req : Request) (out : Outside) (a : App) (user : User)
      → req.authorization ≡ bearer ++ token
      → verify k b token out.now a.auth ≡ inr user
      → handle_me k b req out a ≡ (own_account user, a)
  unfolding handle_me
  handle_me-known token req out a user shown good =
      let there = verify-there token out.now a.auth user good in
      let known =
        subst (λ h. extract_auth k b true h out.now a ≡ some (some user)) (sym shown)
          (extract_auth-known k b true (bearer ++ token) out.now a user there good) in
      ap (λ o. app_auth_route k b o a (λ u. (me_of k b u, a))) known

  me_at :
      (req : Request) (out : Outside) (s : Server) (a : App) (r : Response)
      → get_app req.app_id s.mgr ≡ some a
      → (handle_me k b req out a).0 ≡ r
      → (handle_request k b (app_only get_me) req out s).0 ≡ r
  unfolding handle_request
  me_at req out s a r found h =
      ap (λ o. (with_mgr k b s (resolve_app req.app_id o (on_app k b get_me req out) s.mgr)).0)
        found
      ∙ h

  -- What is left of an app by a registration behind the limiter.
  limited_register_inv :
      (req : Request) (out : Outside) (s : Server) (a : App) (user : User) (token : Bytes)
      → get_app req.app_id s.mgr ≡ some a
      → (handle_request k b (limited post_register) req out s).0 ≡ signed_in 201 user token
      → (email : Bytes) × (password : Bytes) × ((register k b email password out.draw out.now
            out.disk a.auth).0
          ≡ inr (user, token))
        × (get_app req.app_id (handle_request k b (limited post_register) req out s).1.mgr
            ≡ some (record a {
              auth = (register k b email password out.draw out.now out.disk a.auth).1;
            }))
  unfolding handle_request rate_limited handle_register get_app
  limited_register_inv req out s a user token found h =
      let served = ap (λ o. limited_app k b post_register req out o s) found in
      let verdict = allow (client_ip req.x_forwarded_for req.remote_addr) out.now s.auth_rl in
      let (let_in, kept) =
        admitted verdict.0 (handle_register k b req out a) verdict.1 a user token
          (sym (ap (λ r. r.0) served) ∙ h) in
      let (email, password, done, left) =
        register_with_inv (decode_texts (codes "email") (codes "password") req.body) out a user
          token let_in in
      (
        email,
        password,
        done,
        ap (λ r. get_app req.app_id r.1.mgr) served
            ∙ rw (lookup-insert req.app_id req.app_id _ s.mgr.apps, same_refl req.app_id) refl
            ∙ ap some (kept ∙ left),
      )

  -- If a POST to register at a running app is answered with an account and a token, then a GET of me
  -- at the same app, with that token behind `Bearer `, no later than a day after and no more than
  -- thirty seconds earlier, is answered with that account, if the id drawn for the token is not
  -- revoked there and the drawn ids are of bytes.
  pub get_me-post_register :
      (req me : Request) (out later : Outside) (s : Server) (a : App) (user : User) (token : Bytes)
      → get_app req.app_id s.mgr ≡ some a
      → IsDrawn out.draw.uid_bytes
      → IsDrawn out.draw.jti_bytes
      → lookup (random_hex out.draw.jti_bytes) a.auth.blacklist ≡ none
      → unix out.now ≤ unix later.now + 30
      → unix later.now ≤ unix (out.now + token_ttl)
      → me.app_id ≡ req.app_id
      → me.authorization ≡ bearer ++ token
      → (handle_request k b (limited post_register) req out s).0 ≡ signed_in 201 user token
      → (handle_request k b
          (app_only get_me)
          me
          later
          (handle_request k b (limited post_register) req out s).1).0
        ≡ own_account user
  get_me-post_register req me out later s a user token found hu hj new early late at shown h =
      let (email, password, done, left) = limited_register_inv req out s a user token found h in
      let a' : App = record a {
        auth = (register k b email password out.draw out.now out.disk a.auth).1;
      } in
      let good =
        verify-register k b email password out.draw out.now later.now out.disk a.auth user token hu
          hj new early late done in
      me_at me later (handle_request k b (limited post_register) req out s).1 a' (own_account user)
        (ap (λ id. get_app id (handle_request k b (limited post_register) req out s).1.mgr) at
          ∙ left)
        (ap (λ r. r.0) (handle_me-known token me later a' user shown good))
