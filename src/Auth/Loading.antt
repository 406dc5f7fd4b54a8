-- ===== src/Auth/Loading.antt =====
-- internal/auth/auth.go: the file of accounts, and what `New` makes of it.
use firego.Base.{
  ℕ, ◌≡◌, refl, sym, ap, ◌∙◌, Bool, true, false, Bool-cases, Option, none, some, List, [], ◌∷◌,
  Bytes, Dict, Unique, lookup, insert, lookup-insert, lookup-insert-none, delete-insert, same,
  same_iff, is_empty, All, inl, inr, subst, arith, if◌then◌else◌,
}
use firego.Jwt.Token.{Claims, Codec, parse}
use firego.Auth.Email.{trim_space, to_lower}
use firego.Auth.Service.{
  User, StoredUser, absent, holds, Service, Bcrypt, Draw, load, empty, new, values_of, new_user,
  store_user, register, login_as, login, logout, logout_claims, clean_blacklist,
}
use firego.Auth.Accounts.{register-Ending, register_inv}
use firego.Auth.Revocation.{Step, registers, logs_out, cleans, step, run}

-- Each account stands once, under its email in small letters.
abbrev pub Keyed : Dict StoredUser → Type 0
Keyed m = All (λ entry. entry.0 ≡ to_lower entry.1.user.email) m × Unique m

abbrev or_else : Option StoredUser → Option StoredUser → Option StoredUser
or_else none o = o
or_else (some u) o = some u

or_else_if :
    (j key : Bytes) (u : StoredUser) (o : Option StoredUser) (m : Dict StoredUser)
    → lookup j m ≡ none
    → or_else (lookup key m) (if same j key then some u else o)
      ≡ or_else (if same j key then some u else lookup key m) o
or_else_if j key u o m free = elim (Bool-cases (same j key)) [
  | inl here ↦
      let gone : lookup key m ≡ none =
        subst (λ x. lookup x m ≡ none) ((same_iff j key).0 here) free in
      rw (here, gone) refl
  | inr other ↦ rw other refl
]

lookup-load :
    (m : Dict StoredUser) (s : Service) (key : Bytes)
    → Keyed m
    → lookup key (load (values_of m) s).users ≡ or_else (lookup key m) (lookup key s.users)
unfolding load lookup
lookup-load [] s key h = refl
lookup-load ((j, u) ∷ m) s key h =
    let e : lookup key (insert (to_lower u.user.email) u s.users)
        ≡ (if same j key then some u else lookup key s.users) =
      rw (sym h.0.0) (lookup-insert j key u s.users) in
    lookup-load m _ key (h.0.1, h.1.1)
    ∙ ap (or_else (lookup key m)) e
    ∙ or_else_if j key u (lookup key s.users) m h.1.0

pub secret-load : (us : List StoredUser) (s : Service) → (load us s).secret ≡ s.secret
unfolding load
secret-load [] s = refl
secret-load (u ∷ us) s = secret-load us _

Keyed-insert :
    (u : StoredUser) (m : Dict StoredUser)
    → lookup (to_lower u.user.email) m ≡ none
    → Keyed m
    → Keyed (insert (to_lower u.user.email) u m)
unfolding insert lookup
Keyed-insert u [] free h = ((refl, tt), (refl, tt))
Keyed-insert u (entry ∷ m) free h =
    let key = to_lower u.user.email in
    elim (Bool-cases (same entry.0 key)) [
      | inl here ↦ absurd (ground (arith, here))
      | inr other ↦
          let skip : lookup key (entry ∷ m) ≡ lookup key m = rw other refl in
          let rest = Keyed-insert u m (sym skip ∙ free) (h.0.1, h.1.1) in
          let apart : same key entry.0 ≡ false =
            ground (arith, other, same_iff key entry.0, same_iff entry.0 key) in
          rw other ((h.0.0, rest.0), (lookup-insert-none key entry.0 u m h.1.0 apart, rest.1))
    ]

-- What is kept by every step: the secret, and accounts that are keyed by their emails.
abbrev pub Sound : Bytes → Service → Type 0
Sound secret s = (s.secret ≡ secret) × Keyed s.users

-- The file gives a new service that loads these accounts.
abbrev Filed : Bytes → Service → Type 0
Filed secret s =
    new s.file secret ≡ some (load (values_of s.users) (empty (holds (values_of s.users)) secret))

or_else_end : (o : Option StoredUser) → or_else o none ≡ o
or_else_end none = refl
or_else_end (some u) = refl

module _ (k : Codec) (b : Bcrypt) where
  store_user-Sound :
      (u : StoredUser) (draw : Draw) (now : ℕ) (disk : Bool) (s : Service) (secret : Bytes)
      → lookup (to_lower u.user.email) s.users ≡ none
      → Sound secret s
      → Sound secret (store_user k b u (to_lower u.user.email) draw now disk s).1
  store_user-Sound u draw now true s secret free h = (h.0, Keyed-insert u s.users free h.1)
  store_user-Sound u draw now false s secret free h =
      (h.0, rw (delete-insert (to_lower u.user.email) u s.users free) h.1)

  register-Sound :
      (text password : Bytes) (draw : Draw) (now : ℕ) (disk : Bool) (s : Service) (secret : Bytes)
      → Sound secret s
      → Sound secret (register k b text password draw now disk s).1
  register-Sound text password draw now disk s secret h =
      elim (register-Ending k b text password draw now disk s) [
        | inl (e, stays) ↦ subst (λ r. Sound secret r.1) (sym stays) h
        | inr (hash, _, _, free, ends) ↦
            let u = new_user k b (trim_space text) hash draw now in
            subst (λ r. Sound secret r.1) (sym ends)
              (store_user-Sound u draw now disk s secret free h)
      ]

  logout_claims-Sound :
      (o : Option Claims) (s : Service) (secret : Bytes)
      → Sound secret s
      → Sound secret (logout_claims k b o s).1
  logout_claims-Sound none s secret h = h
  logout_claims-Sound (some c) s secret h = elim (Bool-cases (is_empty c.jwtid)) [
    | inl no_id ↦ rw no_id h
    | inr id ↦ rw id h
  ]

  step-Sound :
      (x : Step) (s : Service) (secret : Bytes) → Sound secret s → Sound secret (step k b x s)
  unfolding step
  step-Sound (registers text password draw now disk) s secret h =
      register-Sound text password draw now disk s secret h
  step-Sound (logs_out token now) s secret h =
      unfold logout in logout_claims-Sound (parse k token s.secret now) s secret h
  step-Sound (cleans now) s secret h = unfold clean_blacklist in h

  pub run-Sound :
      (xs : List Step) (s : Service) (secret : Bytes) → Sound secret s → Sound secret (run k b xs s)
  unfolding run
  run-Sound [] s secret h = h
  run-Sound (x ∷ xs) s secret h = run-Sound xs (step k b x s) secret (step-Sound x s secret h)

  login_as_secret :
      (o : Option StoredUser) (password : Bytes) (draw : Draw) (now : ℕ) (s s' : Service)
      → s.secret ≡ s'.secret
      → login_as k b o password draw now s ≡ login_as k b o password draw now s'
  login_as_secret none password draw now s s' e = refl
  login_as_secret (some u) password draw now s s' e = rw e refl

  login-load :
      (s : Service) (secret text password : Bytes) (draw : Draw) (now : ℕ)
      → Sound secret s
      → login k b text password draw now
          (load (values_of s.users) (empty (holds (values_of s.users)) secret))
        ≡ login k b text password draw now s
  unfolding login
  login-load s secret text password draw now h =
      let m = s.users in
      let key = to_lower (trim_space text) in
      let s' = load (values_of m) (empty (holds (values_of m)) secret) in
      let known : lookup key s'.users ≡ lookup key m =
        lookup-load m (empty (holds (values_of m)) secret) key h.1 ∙ or_else_end (lookup key m) in
      ap (λ o. login_as k b o password draw now s') known
      ∙ login_as_secret (lookup key m) password draw now s' s
          (secret-load (values_of m) _ ∙ sym h.0)

  -- After any history of a new service, the file that a registration wrote makes a service in which
  -- every login ends as in the running one.
  pub login-new :
      (xs : List Step) (secret : Bytes) (text password : Bytes) (draw : Draw) (now : ℕ)
      (disk : Bool) (reply : User × Bytes)
      → (register k b text password draw now disk (run k b xs (empty absent secret))).0 ≡ inr reply
      → (s : Service) × (new
            (register k b text password draw now disk (run k b xs (empty absent secret))).1.file
            secret
          ≡ some s)
        × ((text' password' : Bytes) (draw' : Draw) (now' : ℕ)
            → login k b text' password' draw' now' s
              ≡ login k b text' password' draw' now'
                  (register k b text password draw now disk (run k b xs (empty absent secret))).1)
  login-new xs secret text password draw now disk reply h =
      let start = run k b xs (empty absent secret) in
      let s' = (register k b text password draw now disk start).1 in
      let sound = run-Sound xs (empty absent secret) secret (refl, (tt, tt)) in
      let (hash, done) = register_inv k b text password draw now disk start reply h in
      (
        load (values_of s'.users) (empty (holds (values_of s'.users)) secret),
        subst (λ r. Filed secret r.1) (sym done.3) (unfold new in refl),
        λ text' password' draw' now'.
            login-load s' secret text' password' draw' now'
              (register-Sound text password draw now disk start secret sound),
      )
