-- ===== src/Auth/Email.antt =====
-- internal/auth/auth.go: what is done to the texts of emails and of random identifiers. Spaces and
-- letters are those of ASCII; emailRE admits no other.
use firego.Base.{
  ℕ, ◌+◌, ◌/◌, ◌%◌, ◌<◌, ◌≡◌, Bool, true, false, inl, inr, Bool-cases, ◌&&◌, ◌||◌, List, [], ◌∷◌,
  Bytes, map, All, is_empty, ltb, leb, in_range, ◌==◌, if◌then◌else◌, length, arith,
}
use firego.Jwt.Token.{IsAscii}

abbrev pub is_blank : ℕ → Bool
is_blank c = c == b' ' || in_range 9 13 c

unfoldable pub trim_space_left : Bytes → Bytes
trim_space_left [] = []
trim_space_left (c ∷ s) = let rest = trim_space_left s in if is_blank c then rest else c ∷ s

unfoldable pub trim_space_right : Bytes → Bytes
trim_space_right [] = []
trim_space_right (c ∷ s) =
    let rest = trim_space_right s in if is_blank c && is_empty rest then [] else c ∷ rest

-- strings.TrimSpace
unfoldable pub trim_space : Bytes → Bytes
unfolding trim_space_left trim_space_right
trim_space s = trim_space_right (trim_space_left s)

-- strings.ToLower
unfoldable pub to_lower : Bytes → Bytes
to_lower s = map (λ c. if in_range b'A' b'Z' c then c + 32 else c) s

abbrev pub is_alpha : ℕ → Bool
is_alpha c = in_range b'a' b'z' c || in_range b'A' b'Z' c

-- The classes [a-zA-Z0-9.\-] and [a-zA-Z0-9._%+\-].
abbrev pub is_domain_byte : ℕ → Bool
is_domain_byte c = is_alpha c || in_range b'0' b'9' c || c == b'.' || c == b'-'

abbrev pub is_local_byte : ℕ → Bool
is_local_byte c = is_domain_byte c || c == b'_' || c == b'%' || c == b'+'

abbrev pub all_alpha : Bytes → Bool
all_alpha [] = true
all_alpha (c ∷ s) = let rest = all_alpha s in is_alpha c && rest

-- [a-zA-Z]{2,}$
abbrev pub is_tld : Bytes → Bool
is_tld s = leb 2 (length s) && all_alpha s

-- [a-zA-Z0-9.\-]*\.[a-zA-Z]{2,}$, where the point may be any in the text.
abbrev pub domain_rest : Bytes → Bool
domain_rest [] = false
domain_rest (c ∷ s) = let rest = domain_rest s in c == b'.' && is_tld s || is_domain_byte c && rest

-- [a-zA-Z0-9.\-]+\.[a-zA-Z]{2,}$
abbrev pub is_domain : Bytes → Bool
is_domain [] = false
is_domain (c ∷ s) = is_domain_byte c && domain_rest s

-- [a-zA-Z0-9._%+\-]*@[a-zA-Z0-9.\-]+\.[a-zA-Z]{2,}$
abbrev pub local_rest : Bytes → Bool
local_rest [] = false
local_rest (c ∷ s) = let rest = local_rest s in c == b'@' && is_domain s || is_local_byte c && rest

-- emailRE.MatchString
unfoldable pub match_email : Bytes → Bool
match_email [] = false
match_email (c ∷ s) = is_local_byte c && local_rest s

abbrev pub hex_digit : ℕ → ℕ
hex_digit d = if ltb d 10 then d + 48 else d + 87

-- `randomHex`, on the random bytes.
unfoldable pub random_hex : List ℕ → Bytes
random_hex [] = []
random_hex (b ∷ bs) = hex_digit (b / 16) ∷ hex_digit (b % 16) ∷ random_hex bs

all_alpha-IsAscii : (s : Bytes) → all_alpha s ≡ true → IsAscii s
all_alpha-IsAscii [] h = tt
all_alpha-IsAscii (c ∷ s) h = (ground arith, all_alpha-IsAscii s (ground arith))

domain_rest-IsAscii : (s : Bytes) → domain_rest s ≡ true → IsAscii s
domain_rest-IsAscii [] h = absurd cc
domain_rest-IsAscii (c ∷ s) h = elim (Bool-cases (domain_rest s)) [
  | inl more ↦ (ground (arith, more), domain_rest-IsAscii s more)
  | inr last ↦ (ground (arith, last), all_alpha-IsAscii s (ground (arith, last)))
]

is_domain-IsAscii : (s : Bytes) → is_domain s ≡ true → IsAscii s
is_domain-IsAscii [] h = absurd cc
is_domain-IsAscii (c ∷ s) h = (ground arith, domain_rest-IsAscii s (ground arith))

local_rest-IsAscii : (s : Bytes) → local_rest s ≡ true → IsAscii s
local_rest-IsAscii [] h = absurd cc
local_rest-IsAscii (c ∷ s) h = elim (Bool-cases (local_rest s)) [
  | inl more ↦ (ground (arith, more), local_rest-IsAscii s more)
  | inr last ↦ (ground (arith, last), is_domain-IsAscii s (ground (arith, last)))
]

pub match_email-IsAscii : (s : Bytes) → match_email s ≡ true → IsAscii s
unfolding match_email
match_email-IsAscii [] h = absurd cc
match_email-IsAscii (c ∷ s) h = (ground arith, local_rest-IsAscii s (ground arith))

pub random_hex-IsAscii : (bs : List ℕ) → All (λ b. b < 256) bs → IsAscii (random_hex bs)
unfolding random_hex
random_hex-IsAscii [] h = tt
random_hex-IsAscii (b ∷ bs) h = (ground arith, (ground arith, random_hex-IsAscii bs h.1))
