-- ===== src/Auth/Sessions.antt =====
-- internal/auth/auth.go: the tokens of `Register` and `Login` verify, and none that was logged out
-- does.
use firego.Base.{
  ℕ, ◌+◌, ◌<◌, ◌≤◌, ◌≡◌, refl, sym, ap, ◌∙◌, Bool, true, false, Bool-cases, none, some, List, Bytes,
  Dict, lookup, insert, lookup-insert, same_refl, is_empty, All, ◌⊎◌, inl, inr, arith,
}
use firego.Jwt.Token.{Claims, Codec, IsAscii, unix, stamp, parse}
use firego.Jwt.Issued.{parse-sign_claims}
use firego.Auth.Email.{
  trim_space, to_lower, match_email, match_email-IsAscii, random_hex, random_hex-IsAscii,
}
use firego.Auth.Service.{
  User, StoredUser, Service, Bcrypt, Draw, AuthError, token_revoked, token_ttl, add_user, save,
  issue_token, register, login, login_as, verify, verify_claims, new_user,
}
use firego.Auth.Accounts.{register_inv}

abbrev pub IsDrawn : List ℕ → Type 0
IsDrawn = All (λ c. c < 256)

-- The answer of a call that returns no error.
abbrev pub answer : User × Bytes → AuthError ⊎ User × Bytes
answer r = inr r

module _ (k : Codec) (b : Bcrypt) where
  pub verify_lem :
      (token : Bytes) (now : ℕ) (s : Service)
      → verify k b token now s ≡ verify_claims k b (parse k token s.secret now) s
  unfolding verify
  verify_lem token now s = refl

  verify_claims-known :
      (c : Claims) (u : StoredUser) (s : Service)
      → lookup c.jwtid s.blacklist ≡ none
      → lookup c.subject s.by_uid ≡ some u
      → verify_claims k b (some c) s ≡ inr u.user
  verify_claims-known c u s new known = elim (Bool-cases (is_empty c.jwtid)) [
    | inl no_id ↦ rw (no_id, known) refl
    | inr id ↦ rw (id, new, known) refl
  ]

  pub verify_claims-revoked :
      (c : Claims) (e : ℕ) (s : Service)
      → is_empty c.jwtid ≡ false
      → lookup c.jwtid s.blacklist ≡ some e
      → verify_claims k b (some c) s ≡ inl token_revoked
  verify_claims-revoked c e s id listed = rw (id, listed) refl

  verify-issue_token :
      (u : StoredUser) (draw : Draw) (now later : ℕ) (s : Service)
      → IsAscii u.user.uid
      → IsAscii u.user.email
      → IsDrawn draw.jti_bytes
      → lookup (random_hex draw.jti_bytes) s.blacklist ≡ none
      → lookup u.user.uid s.by_uid ≡ some u
      → unix now ≤ unix later + 30
      → unix later ≤ unix (now + token_ttl)
      → verify k b (issue_token k b u draw now s.secret) later s ≡ inr u.user
  unfolding issue_token
  verify-issue_token u draw now later s hu he hj new known early late =
      let claims : Claims = record {
        subject = u.user.uid;
        email = u.user.email;
        jwtid = random_hex draw.jti_bytes;
        issued_at = 0;
        expires_at = 0;
      } in
      let hex = random_hex-IsAscii draw.jti_bytes hj in
      let parsed = parse-sign_claims k claims s.secret token_ttl now later hu he hex early late in
      verify_lem _ later s
      ∙ ap (λ o. verify_claims k b o s) parsed
      ∙ verify_claims-known (stamp claims token_ttl now) u s new known

  inserted :
      (u : StoredUser) (m : Dict StoredUser) → lookup u.user.uid (insert u.user.uid u m) ≡ some u
  inserted u m = rw (lookup-insert u.user.uid u.user.uid u m, same_refl u.user.uid) refl

  -- A token that is issued to a new account verifies as that account.
  verify-new_user :
      (email hash : Bytes) (draw draw' : Draw) (born now later : ℕ) (key : Bytes) (s : Service)
      → match_email email ≡ true
      → IsDrawn draw.uid_bytes
      → IsDrawn draw'.jti_bytes
      → lookup (random_hex draw'.jti_bytes) s.blacklist ≡ none
      → unix now ≤ unix later + 30
      → unix later ≤ unix (now + token_ttl)
      → verify k b
          (issue_token k b (new_user k b email hash draw born) draw' now s.secret)
          later
          (save (add_user k b (new_user k b email hash draw born) key s))
        ≡ inr (new_user k b email hash draw born).user
  verify-new_user email hash draw draw' born now later key s valid hu hj new early late =
      let u = new_user k b email hash draw born in
      verify-issue_token u draw' now later (save (add_user k b u key s))
        (random_hex-IsAscii draw.uid_bytes hu) (match_email-IsAscii email valid) hj new
        (inserted u s.by_uid) early late

  reply_inj : (u v : User) (t r : Bytes) → answer (u, t) ≡ answer (v, r) → (u ≡ v) × (t ≡ r)
  reply_inj u v t r h = (ground (arith, h), ground (arith, h))

  -- The token of a registration verifies as the new account until it expires, if the id drawn for it
  -- is not revoked.
  pub verify-register :
      (text password : Bytes) (draw : Draw) (now later : ℕ) (disk : Bool) (s : Service)
      (user : User) (token : Bytes)
      → IsDrawn draw.uid_bytes
      → IsDrawn draw.jti_bytes
      → lookup (random_hex draw.jti_bytes) s.blacklist ≡ none
      → unix now ≤ unix later + 30
      → unix later ≤ unix (now + token_ttl)
      → (register k b text password draw now disk s).0 ≡ inr (user, token)
      → verify k b token later (register k b text password draw now disk s).1 ≡ inr user
  verify-register text password draw now later disk s user token hu hj new early late h =
      let (hash, done) = register_inv k b text password draw now disk s (user, token) h in
      let reply = reply_inj _ user _ token (sym (ap (λ r. r.0) done.3) ∙ h) in
      let u = new_user k b (trim_space text) hash draw now in
      let s' = save (add_user k b u (to_lower (trim_space text)) s) in
      ap (λ r. verify k b token later r.1) done.3
      ∙ ap (λ t. verify k b t later s') (sym reply.1)
      ∙ verify-new_user (trim_space text) hash draw draw now now later (to_lower (trim_space text))
          s done.0 hu hj new early late
      ∙ ap inr reply.0

  login-known :
      (text password : Bytes) (draw : Draw) (now : ℕ) (s : Service) (u : StoredUser)
      → lookup (to_lower (trim_space text)) s.users ≡ some u
      → b.compare_hash u.bcrypt_hash password ≡ true
      → login k b text password draw now s ≡ inr (u.user, issue_token k b u draw now s.secret)
  unfolding login
  login-known text password draw now s u known good =
      ap (λ o. login_as k b o password draw now s) known ∙ rw good refl

  -- After a registration, a login with its password and its email, in letters of any case and with
  -- blanks around, gives the account and a token that verifies as it until it expires, if the id
  -- drawn for the token is not revoked.
  pub login-register :
      (text text' password : Bytes) (draw draw' : Draw) (born now later : ℕ) (disk : Bool)
      (s : Service) (user : User) (first : Bytes)
      → to_lower (trim_space text') ≡ to_lower (trim_space text)
      → IsDrawn draw.uid_bytes
      → IsDrawn draw'.jti_bytes
      → lookup (random_hex draw'.jti_bytes) s.blacklist ≡ none
      → unix now ≤ unix later + 30
      → unix later ≤ unix (now + token_ttl)
      → (register k b text password draw born disk s).0 ≡ inr (user, first)
      → (token : Bytes) × (login k b text' password draw' now
            (register k b text password draw born disk s).1
          ≡ inr (user, token))
        × (verify k b token later (register k b text password draw born disk s).1 ≡ inr user)
  login-register text text' password draw draw' born now later disk s user first e hu hj new early
        late h =
      let (hash, done) = register_inv k b text password draw born disk s (user, first) h in
      let reply = reply_inj _ user _ first (sym (ap (λ r. r.0) done.3) ∙ h) in
      let email = trim_space text in
      let u = new_user k b email hash draw born in
      let s' = save (add_user k b u (to_lower email) s) in
      let t = issue_token k b u draw' now s.secret in
      let listed : lookup (to_lower email) (insert (to_lower email) u s.users) ≡ some u =
        rw (lookup-insert (to_lower email) (to_lower email) u s.users, same_refl (to_lower email))
          refl in
      (
        t,
        ap (λ r. login k b text' password draw' now r.1) done.3
            ∙ login-known text' password draw' now s' u (ap (λ key. lookup key s'.users) e ∙ listed)
                (b.compare_hash-generate password draw.salt hash done.1)
            ∙ ap (λ v. answer (v, t)) reply.0,
        ap (λ r. verify k b t later r.1) done.3
            ∙ verify-new_user email hash draw draw' born now later (to_lower email) s done.0 hu hj
                new early late
            ∙ ap inr reply.0,
      )
