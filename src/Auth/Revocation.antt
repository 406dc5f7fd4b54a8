-- ===== src/Auth/Revocation.antt =====
-- internal/auth/auth.go: no token verifies once it was logged out.
use firego.Base.{
  ℕ, ◌<◌, ◌≤◌, ◌≡◌, ◌≢◌, refl, sym, subst, Option, ap, ◌∙◌, Bool, true, false, Bool-cases,
  Option-cases, none, some, List, [], ◌∷◌, Bytes, Dict, lookup, insert, lookup-insert, same,
  same_iff, same_refl, is_empty, All, ◌⊎◌, inl, inr, arith,
}
use firego.Jwt.Token.{Claims, Codec, unix, parse}
use firego.Jwt.Signed.{parse_same}
use firego.Auth.Service.{
  StoredUser, Service, Bcrypt, Draw, AuthError, invalid_token, token_revoked, store_user, register,
  logout, logout_claims, verify, verify_claims, revoke, clean_blacklist, expire_entries,
}
use firego.Auth.Accounts.{register-Ending}
use firego.Auth.Sessions.{verify_lem, verify_claims-revoked}

-- What changes a service. `Login` and `Verify` change nothing.
pub data Step : Type 0 where
  registers : Bytes → Bytes → Draw → ℕ → Bool → Step
  logs_out : Bytes → ℕ → Step
  cleans : ℕ → Step

module _ (k : Codec) (b : Bcrypt) where
  unfoldable pub step : Step → Service → Service
  unfolding register logout clean_blacklist
  step (registers text password draw now disk) s = (register k b text password draw now disk s).1
  step (logs_out token now) s = (logout k b token now s).1
  step (cleans now) s = clean_blacklist now s

  unfoldable pub run : List Step → Service → Service
  unfolding step
  run [] s = s
  run (x ∷ xs) s = run xs (step x s)

  -- No cleaning is later than `later`, and no other token that is logged out has the id of `c` and
  -- an expiry of its own.
  abbrev pub Keeps : Claims → Bytes → ℕ → Step → Type 0
  Keeps c secret later (registers text password draw now disk) = Unit
  Keeps c secret later (logs_out token now) =
      (d : Claims)
      → parse k token secret now ≡ some d
      → d.jwtid ≡ c.jwtid
      → d.expires_at ≡ c.expires_at
  Keeps c secret later (cleans now) = unix now ≤ unix later

  -- The id is listed, or the token has expired.
  abbrev Revoked : Claims → ℕ → Dict ℕ → Type 0
  Revoked c later m = (lookup c.jwtid m ≡ some c.expires_at) ⊎ (c.expires_at < unix later)

  -- A step of the service. `Login` and `Verify` change nothing.
  lookup-expire :
      (key : Bytes) (e now : ℕ) (m : Dict ℕ)
      → lookup key m ≡ some e
      → (lookup key (expire_entries now m) ≡ some e) ⊎ (e < now)
  unfolding lookup expire_entries
  lookup-expire key e now [] h = absurd cc
  lookup-expire key e now (entry ∷ m) h = ground (arith, lookup-expire key e now m)

  Revoked-expire :
      (c : Claims) (now later : ℕ) (m : Dict ℕ)
      → unix now ≤ unix later
      → Revoked c later m
      → Revoked c later (expire_entries (unix now) m)
  Revoked-expire c now later m le (inr past) = inr past
  Revoked-expire c now later m le (inl listed) =
      elim (lookup-expire c.jwtid c.expires_at (unix now) m listed) [
        | inl still ↦ inl still
        | inr past ↦ inr (omega arith)
      ]

  Revoked-insert :
      (c d : Claims) (later : ℕ) (m : Dict ℕ)
      → (d.jwtid ≡ c.jwtid → d.expires_at ≡ c.expires_at)
      → Revoked c later m
      → Revoked c later (insert d.jwtid d.expires_at m)
  Revoked-insert c d later m agree (inr past) = inr past
  Revoked-insert c d later m agree (inl listed) = elim (Bool-cases (same d.jwtid c.jwtid)) [
    | inl alike ↦
        let e : d.expires_at ≡ c.expires_at = agree ((same_iff d.jwtid c.jwtid).0 alike) in
        inl (rw (lookup-insert d.jwtid c.jwtid d.expires_at m, alike) (ap some e))
    | inr other ↦ inl (rw (lookup-insert d.jwtid c.jwtid d.expires_at m, other) listed)
  ]

  -- The secret is kept, and the claims are revoked.
  abbrev Holds : Claims → ℕ → Bytes → Service → Type 0
  Holds c later secret s = (s.secret ≡ secret) × Revoked c later s.blacklist

  store_user-Holds :
      (u : StoredUser) (key : Bytes) (draw : Draw) (now : ℕ) (disk : Bool) (s : Service)
      (c : Claims) (later : ℕ) (secret : Bytes)
      → Holds c later secret s
      → Holds c later secret (store_user k b u key draw now disk s).1
  store_user-Holds u key draw now true s c later secret h = h
  store_user-Holds u key draw now false s c later secret h = h

  register-Holds :
      (text password : Bytes) (draw : Draw) (now : ℕ) (disk : Bool) (s : Service) (c : Claims)
      (later : ℕ) (secret : Bytes)
      → Holds c later secret s
      → Holds c later secret (register k b text password draw now disk s).1
  register-Holds text password draw now disk s c later secret h =
      elim (register-Ending k b text password draw now disk s) [
        | inl (e, stays) ↦ subst (λ r. Holds c later secret r.1) (sym stays) h
        | inr (hash, _, _, _, ends) ↦
            subst (λ r. Holds c later secret r.1) (sym ends)
              (store_user-Holds _ _ draw now disk s c later secret h)
      ]

  revoke-Holds :
      (c d : Claims) (later : ℕ) (secret : Bytes) (s : Service)
      → (d.jwtid ≡ c.jwtid → d.expires_at ≡ c.expires_at)
      → Holds c later secret s
      → Holds c later secret (revoke k b d s)
  revoke-Holds c d later secret s agree h = elim (Bool-cases (is_empty d.jwtid)) [
    | inl no_id ↦ rw no_id h
    | inr id ↦ rw id (h.0, Revoked-insert c d later s.blacklist agree h.1)
  ]

  logout_lem :
      (token secret : Bytes) (now : ℕ) (s : Service) (o : Option Claims)
      → s.secret ≡ secret
      → parse k token secret now ≡ o
      → logout k b token now s ≡ logout_claims k b o s
  unfolding logout
  logout_lem token secret now s o kept e =
      ap (λ r. logout_claims k b r s) (ap (λ x. parse k token x now) kept ∙ e)

  logout-Holds :
      (c : Claims) (token : Bytes) (now later : ℕ) (secret : Bytes) (s : Service)
      → Keeps c secret later (logs_out token now)
      → Holds c later secret s
      → Holds c later secret (logout k b token now s).1
  logout-Holds c token now later secret s keeps h = elim (Option-cases (parse k token secret now)) [
    | inl bad ↦
        subst (λ r. Holds c later secret r.1) (sym (logout_lem token secret now s none h.0 bad)) h
    | inr (d, good) ↦
        subst (λ r. Holds c later secret r.1)
          (sym (logout_lem token secret now s (some d) h.0 good))
          (revoke-Holds c d later secret s (keeps d good) h)
  ]

  step-Holds :
      (x : Step) (c : Claims) (later : ℕ) (secret : Bytes) (s : Service)
      → Keeps c secret later x
      → Holds c later secret s
      → Holds c later secret (step x s)
  unfolding step
  step-Holds (registers text password draw now disk) c later secret s keeps h =
      register-Holds text password draw now disk s c later secret h
  step-Holds (logs_out token now) c later secret s keeps h =
      logout-Holds c token now later secret s keeps h
  step-Holds (cleans now) c later secret s keeps h =
      unfold clean_blacklist in (h.0, Revoked-expire c now later s.blacklist keeps h.1)

  run-Holds :
      (xs : List Step) (c : Claims) (later : ℕ) (secret : Bytes) (s : Service)
      → All (Keeps c secret later) xs
      → Holds c later secret s
      → Holds c later secret (run xs s)
  unfolding run
  run-Holds [] c later secret s keeps h = h
  run-Holds (x ∷ xs) c later secret s keeps h =
      run-Holds xs c later secret (step x s) keeps.1 (step-Holds x c later secret s keeps.0 h)

  Holds-logout :
      (token secret : Bytes) (now later : ℕ) (s : Service) (c : Claims)
      → s.secret ≡ secret
      → parse k token secret now ≡ some c
      → is_empty c.jwtid ≡ false
      → Holds c later secret (logout k b token now s).1
  Holds-logout token secret now later s c kept good id =
      let listed : lookup c.jwtid (insert c.jwtid c.expires_at s.blacklist) ≡ some c.expires_at =
        rw (lookup-insert c.jwtid c.jwtid c.expires_at s.blacklist, same_refl c.jwtid) refl in
      subst (λ r. Holds c later secret r.1) (sym (logout_lem token secret now s (some c) kept good))
        (rw id (kept, inl listed))

  refused :
      (token secret : Bytes) (now later : ℕ) (s : Service) (c : Claims) (o : Option Claims)
      → parse k token secret now ≡ some c
      → is_empty c.jwtid ≡ false
      → c.expires_at ≢ 0
      → Holds c later secret s
      → parse k token secret later ≡ o
      → (e : AuthError) × (verify_claims k b o s ≡ inl e)
  refused token secret now later s c none good id ends h again = (invalid_token, refl)
  refused token secret now later s c (some d) good id ends h again =
      let (alike, in_time) = parse_same k token secret now later c d good again in
      elim h.1 [
        | inl listed ↦ (
          token_revoked,
          ap (λ x. verify_claims k b (some x) s) alike
              ∙ verify_claims-revoked k b c c.expires_at s id listed,
        )
        | inr past ↦ absurd (ground (arith, in_time.1, past, ends))
      ]

  -- A token that is accepted, names an id and expires is refused for ever after its logout, whoever
  -- registers, whatever other tokens are logged out and however often the list of revoked tokens is
  -- cleaned before, unless another token with the same id and another expiry is logged out.
  pub verify-run :
      (token : Bytes) (now later : ℕ) (xs : List Step) (s : Service) (c : Claims)
      → parse k token s.secret now ≡ some c
      → is_empty c.jwtid ≡ false
      → c.expires_at ≢ 0
      → All (Keeps c s.secret later) xs
      → (e : AuthError) × (verify k b token later (run xs (logout k b token now s).1) ≡ inl e)
  verify-run token now later xs s c good id ends keeps =
      let s' = run xs (logout k b token now s).1 in
      let start = Holds-logout token s.secret now later s c refl good id in
      let h = run-Holds xs c later s.secret (logout k b token now s).1 keeps start in
      let same_secret : parse k token s'.secret later ≡ parse k token s.secret later =
        ap (λ x. parse k token x later) h.0 in
      let (e, turned_down) = refused token s.secret now later s' c _ good id ends h refl in
      (
        e,
        verify_lem k b token later s' ∙ ap (λ o. verify_claims k b o s') same_secret ∙ turned_down,
      )
