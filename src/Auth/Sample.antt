-- ===== src/Auth/Sample.antt =====
-- An account for runs, with passwords that are their own hashes.
use firego.Base.{
  ◌≡◌, refl, true, false, Option, none, some, [], ◌∷◌, Bytes, codes, same, same_refl, same_iff,
  lookup, ltb, length, if◌then◌else◌, inl, inr, arith,
}
use firego.Jwt.Sample.{sample}
use firego.Auth.Email.{trim_space, match_email}
use firego.Auth.Service.{
  StoredUser, Service, Bcrypt, Draw, empty, absent, new_user, issue_token, register, not_saved,
}

-- A password as its own hash, if it is not too long.
clear : Bytes → Bytes → Option Bytes
clear password salt = if ltb 72 (length password) then none else some password

same-clear :
    (password salt hash : Bytes) → clear password salt ≡ some hash → same hash password ≡ true
unfolding clear
same-clear password salt hash h = ground (arith, same_iff hash password, same_refl password)

instance pub plain : Bcrypt
plain = record { generate = clear; compare_hash = same; compare_hash-generate = same-clear }

pub generate_plain : plain.generate (codes "hunter2") [] ≡ some (codes "hunter2")
unfolding clear plain
generate_plain = refl

abbrev pub draw : Draw
draw = record { salt = []; uid_bytes = 0xAB ∷ []; jti_bytes = 0x0F ∷ [] }

abbrev pub secret : Bytes
secret = codes "key"

abbrev pub start : Service
start = empty absent secret

abbrev pub email : Bytes
email = codes " Ann@x.io"

abbrev pub password : Bytes
password = codes "hunter2"

abbrev pub ann : StoredUser
ann = new_user sample plain (codes "Ann@x.io") password draw 5000000000

pub registered :
    (register sample plain email password draw 5000000000 true start).0
    ≡ inr (ann.user, issue_token sample plain ann draw 5000000000 secret)
unfolding register lookup trim_space match_email clear plain
registered = refl

pub unsaved : (register sample plain email password draw 5000000000 false start).0 ≡ inl not_saved
unfolding register lookup trim_space match_email clear plain
unsaved = refl
