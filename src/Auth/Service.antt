-- ===== src/Auth/Service.antt =====
-- internal/auth/auth.go: `Service` and its methods. The clock, the random bytes and the outcome of a
-- save are arguments; bcrypt is a parameter, with the one law that a password fits its own hash. A
-- file holds the list that its JSON stands for.
use firego.Base.{
  ℕ, ◌≡◌, Bool, true, false, not, ◌&&◌, ◌||◌, Option, none, some, List, [], ◌∷◌, Bytes, map, Dict,
  lookup, insert, delete, length, ltb, is_empty, ◌⊎◌, inl, inr, if◌then◌else◌,
}
use firego.Jwt.Token.{Claims, Codec, sign_claims, parse, unix}
use firego.Auth.Email.{trim_space, to_lower, match_email, random_hex}

pub record User : Type 0 where
  pub uid : Bytes
  pub email : Bytes
  pub created_at : ℕ

pub record StoredUser : Type 0 where
  pub user : User
  pub bcrypt_hash : Bytes

-- `users.json`
pub data Accounts : Type 0 where
  absent : Accounts
  holds : List StoredUser → Accounts
  broken : Accounts

pub record Service : Type 0 where
  pub users : Dict StoredUser
  pub by_uid : Dict StoredUser
  pub file : Accounts
  pub secret : Bytes
  pub blacklist : Dict ℕ

-- golang.org/x/crypto/bcrypt, at the cost of the service: `generate` is given a salt, and refuses
-- some passwords.
pub record Bcrypt : Type 0 where
  pub generate : Bytes → Bytes → Option Bytes
  pub compare_hash : Bytes → Bytes → Bool
  pub compare_hash-generate :
      (password salt hash : Bytes)
      → generate password salt ≡ some hash
      → compare_hash hash password ≡ true

pub data AuthError : Type 0 where
  email_taken : AuthError
  invalid_credentials : AuthError
  user_not_found : AuthError
  weak_input : AuthError
  token_revoked : AuthError
  invalid_token : AuthError
  hash_failed : AuthError
  not_saved : AuthError

-- What a call draws from the random source: the salt and the bytes of a uid and a jti.
pub record Draw : Type 0 where
  pub salt : Bytes
  pub uid_bytes : List ℕ
  pub jti_bytes : List ℕ

-- 24 * time.Hour
abbrev pub token_ttl : ℕ
token_ttl = 86400000000000

-- `load`, from the two empty maps.
unfoldable pub load : List StoredUser → Service → Service
load [] s = s
load (u ∷ us) s = load us (record s {
  users = insert (to_lower u.user.email) u s.users;
  by_uid = insert u.user.uid u s.by_uid;
})

abbrev pub empty : Accounts → Bytes → Service
empty file secret = record { users = []; by_uid = []; file = file; secret = secret; blacklist = [] }

-- `New`: `none` is an error.
unfoldable pub new : Accounts → Bytes → Option Service
unfolding load
new absent secret = some (empty absent secret)
new (holds us) secret = some (load us (empty (holds us) secret))
new broken secret = none

abbrev pub values_of : Dict StoredUser → List StoredUser
values_of = map (λ entry. entry.1)

-- `save`, when it succeeds; otherwise the old file is left.
abbrev pub save : Service → Service
save s = record s { file = holds (values_of s.users) }

-- One round of `cleanBlacklist`, at a second.
unfoldable pub expire_entries : ℕ → Dict ℕ → Dict ℕ
expire_entries now [] = []
expire_entries now (entry ∷ m) =
    let rest = expire_entries now m in if ltb entry.1 now then rest else entry ∷ rest

unfoldable pub clean_blacklist : ℕ → Service → Service
unfolding expire_entries
clean_blacklist now s = record s { blacklist = expire_entries (unix now) s.blacklist }

-- The claims of `issueToken`.
abbrev pub claims_for : StoredUser → Draw → Claims
claims_for u draw = record {
  subject = u.user.uid;
  email = u.user.email;
  jwtid = random_hex draw.jti_bytes;
  issued_at = 0;
  expires_at = 0;
}

module _ (k : Codec) (b : Bcrypt) where
  unfoldable pub issue_token : StoredUser → Draw → ℕ → Bytes → Bytes
  unfolding random_hex
  issue_token u draw now secret = sign_claims k (claims_for u draw) secret token_ttl now

  abbrev pub new_user : Bytes → Bytes → Draw → ℕ → StoredUser
  new_user email hash draw now = record {
    user = record { uid = random_hex draw.uid_bytes; email = email; created_at = unix now };
    bcrypt_hash = hash;
  }

  abbrev pub add_user : StoredUser → Bytes → Service → Service
  add_user u key s = record s {
    users = insert key u s.users;
    by_uid = insert u.user.uid u s.by_uid;
  }

  abbrev pub remove_user : StoredUser → Bytes → Service → Service
  remove_user u key s = record s { users = delete key s.users; by_uid = delete u.user.uid s.by_uid }

  -- The part of `Register` under the lock, once the key is known to be free.
  abbrev pub store_user :
      StoredUser → Bytes → Draw → ℕ → Bool → Service → (AuthError ⊎ User × Bytes) × Service
  store_user u key draw now disk s =
      if disk
      then (inr (u.user, issue_token u draw now s.secret), save (add_user u key s))
      else (inl not_saved, remove_user u key (add_user u key s))

  -- `if _, ok := s.users[key]; ok`
  abbrev pub unless_taken :
      Option StoredUser
      → Bytes
      → Bytes
      → Draw
      → ℕ
      → Bool
      → Service
      → (AuthError ⊎ User × Bytes) × Service
  unless_taken (some _) email hash draw now disk s = (inl email_taken, s)
  unless_taken none email hash draw now disk s =
      store_user (new_user email hash draw now) (to_lower email) draw now disk s

  abbrev pub register_hashed :
      Bytes → Option Bytes → Draw → ℕ → Bool → Service → (AuthError ⊎ User × Bytes) × Service
  register_hashed email none draw now disk s = (inl hash_failed, s)
  register_hashed email (some hash) draw now disk s =
      unless_taken (lookup (to_lower email) s.users) email hash draw now disk s

  -- `Register`
  unfoldable pub register :
      Bytes → Bytes → Draw → ℕ → Bool → Service → (AuthError ⊎ User × Bytes) × Service
  unfolding trim_space match_email issue_token lookup
  register text password draw now disk s =
      let email = trim_space text in
      if not (match_email email) || ltb (length password) 6
      then (inl weak_input, s)
      else register_hashed email (b.generate password draw.salt) draw now disk s

  abbrev pub login_as : Option StoredUser → Bytes → Draw → ℕ → Service → AuthError ⊎ User × Bytes
  login_as none password draw now s = inl invalid_credentials
  login_as (some u) password draw now s =
      if b.compare_hash u.bcrypt_hash password
      then inr (u.user, issue_token u draw now s.secret)
      else inl invalid_credentials

  -- `Login`
  unfoldable pub login : Bytes → Bytes → Draw → ℕ → Service → AuthError ⊎ User × Bytes
  unfolding trim_space issue_token lookup
  login text password draw now s =
      login_as (lookup (to_lower (trim_space text)) s.users) password draw now s

  abbrev pub revoke : Claims → Service → Service
  revoke c s =
      if is_empty c.jwtid
      then s
      else record s { blacklist = insert c.jwtid c.expires_at s.blacklist }

  abbrev pub logout_claims : Option Claims → Service → Bool × Service
  logout_claims none s = (false, s)
  logout_claims (some c) s = (true, revoke c s)

  -- `Logout`: true if it returns no error.
  unfoldable pub logout : Bytes → ℕ → Service → Bool × Service
  unfolding parse
  logout token now s = logout_claims (parse k token s.secret now) s

  abbrev pub found : Option StoredUser → AuthError ⊎ User
  found none = inl user_not_found
  found (some u) = inr u.user

  abbrev pub is_some : Option ℕ → Bool
  is_some none = false
  is_some (some e) = true

  abbrev pub verify_claims : Option Claims → Service → AuthError ⊎ User
  verify_claims none s = inl invalid_token
  verify_claims (some c) s =
      if not (is_empty c.jwtid) && is_some (lookup c.jwtid s.blacklist)
      then inl token_revoked
      else found (lookup c.subject s.by_uid)

  -- `Verify`
  unfoldable pub verify : Bytes → ℕ → Service → AuthError ⊎ User
  unfolding parse lookup
  verify token now s = verify_claims (parse k token s.secret now) s
