-- ===== src/Jwt/Token.antt =====
-- internal/jwt/jwt.go: `Claims`, `Sign` and `Parse`. A time of the clock is a number of nanoseconds
-- since 1970; the times in claims are its seconds, and not negative.
use firego.Base.{
  ℕ, ◌+◌, ◌/◌, ◌≡◌, not, ◌&&◌, Option, none, some, List, [], ◌∷◌, ◌++◌, ◌>>=◌, Bytes, codes, same,
  split, All, ltb, ◌==◌, ◌<◌, if◌then◌else◌,
}
use firego.Jwt.Base64.{Byte, b64encode, b64decode}

pub record Claims : Type 0 where
  pub subject : Bytes
  pub email : Bytes
  pub jwtid : Bytes
  pub issued_at : ℕ
  pub expires_at : ℕ

abbrev pub IsAscii : Bytes → Type 0
IsAscii = All (λ c. c < 128)

-- HMAC-SHA256, and what encoding/json does with claims: it reads back what it has written, at least
-- where the texts are ASCII.
pub record Codec : Type 0 where
  pub mac : Bytes → Bytes → Bytes
  pub mac-Byte : (secret input : Bytes) → All Byte (mac secret input)
  pub marshal : Claims → Bytes
  pub marshal-Byte : (c : Claims) → All Byte (marshal c)
  pub unmarshal : Bytes → Option Claims
  pub unmarshal-marshal :
      (c : Claims)
      → IsAscii c.subject
      → IsAscii c.email
      → IsAscii c.jwtid
      → unmarshal (marshal c) ≡ some c

-- t.Unix()
abbrev pub unix : ℕ → ℕ
unix t = t / 1000000000

-- json.Marshal(header{Alg: "HS256", Typ: "JWT"})
abbrev pub header : Bytes
header = codes "{\"alg\":\"HS256\",\"typ\":\"JWT\"}"

abbrev pub stamp : Claims → ℕ → ℕ → Claims
stamp claims ttl now = record claims { issued_at = unix now; expires_at = unix (now + ttl) }

module _ (k : Codec) where
  unfoldable pub sign : Bytes → Bytes → Bytes
  sign input secret = b64encode (k.mac secret input)

  abbrev pub signing_input : Claims → ℕ → ℕ → Bytes
  signing_input claims ttl now =
      b64encode header ++ b'.' ∷ b64encode (k.marshal (stamp claims ttl now))

  -- `Sign`, which returns no error, as both calls of json.Marshal succeed.
  unfoldable pub sign_claims : Claims → Bytes → ℕ → ℕ → Bytes
  unfolding sign
  sign_claims claims secret ttl now =
      let si = signing_input claims ttl now in si ++ b'.' ∷ sign si secret

  -- The checks of the times.
  abbrev pub in_time : Claims → ℕ → Option Claims
  in_time c now =
      if ltb (now + 30) c.issued_at
      then none
      else if not (c.expires_at == 0) && ltb c.expires_at now
      then none
      else some c

  unfoldable pub parse_parts : Bytes → Bytes → Bytes → Bytes → ℕ → Option Claims
  unfolding sign
  parse_parts p q r secret now =
      if same (sign (p ++ b'.' ∷ q) secret) r
      then (b64decode q >>= k.unmarshal) >>= (λ c. in_time c (unix now))
      else none

  abbrev pub parse_split : List Bytes → Bytes → ℕ → Option Claims
  parse_split (p ∷ q ∷ r ∷ []) secret now = parse_parts p q r secret now
  parse_split _ secret now = none

  -- `Parse`: `none` is ErrInvalidToken.
  unfoldable pub parse : Bytes → Bytes → ℕ → Option Claims
  unfolding parse_parts split
  parse token secret now = parse_split (split b'.' token) secret now
