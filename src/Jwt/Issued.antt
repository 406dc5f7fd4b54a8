-- ===== src/Jwt/Issued.antt =====
-- internal/jwt/jwt.go: `Parse` reads what `Sign` wrote.
use firego.Base.{
  ℕ, ◌+◌, ◌≤◌, ◌≡◌, inr, All, Bool, true, ltb, ◌&&◌, [], refl, some, ◌∷◌, ◌++◌, append_assoc, Bytes,
  arith,
}
use firego.Jwt.Base64.{Byte, b64encode, b64encode-Lacks, b64decode-b64encode}
use firego.Jwt.Token.{Claims, Codec, IsAscii, unix, header, stamp, sign, sign_claims, parse}
use firego.Jwt.Signed.{parse_iff}

-- Bytes are below 256, by evaluation.
abbrev are_bytes : Bytes → Bool
are_bytes [] = true
are_bytes (c ∷ s) = let rest = are_bytes s in ltb c 256 && rest

are_bytes-Byte : (s : Bytes) → are_bytes s ≡ true → All Byte s
are_bytes-Byte [] h = tt
are_bytes-Byte (c ∷ s) h = (ground arith, are_bytes-Byte s (ground arith))

pub header-Byte : All Byte header
header-Byte = are_bytes-Byte header refl

-- A token signed for claims of ASCII texts gives the claims back, with the times that it was signed
-- for, under the same secret, from thirty seconds before it was signed up to the end of its last
-- second.
pub parse-sign_claims :
    (k : Codec) (claims : Claims) (secret : Bytes) (ttl now later : ℕ)
    → IsAscii claims.subject
    → IsAscii claims.email
    → IsAscii claims.jwtid
    → unix now ≤ unix later + 30
    → unix later ≤ unix (now + ttl)
    → parse k (sign_claims k claims secret ttl now) secret later ≡ some (stamp claims ttl now)
unfolding sign_claims
parse-sign_claims k claims secret ttl now later hs he hj early late =
    let c = stamp claims ttl now in
    let p = b64encode header in
    let q = b64encode (k.marshal c) in
    let mac = sign k (p ++ b'.' ∷ q) secret in
    (parse_iff k secret _ later c).1 (
      p,
      q,
      (
        append_assoc p (b'.' ∷ q) (b'.' ∷ mac),
        b64encode-Lacks header header-Byte,
        b64encode-Lacks (k.marshal c) (k.marshal-Byte c),
        rw (b64decode-b64encode (k.marshal c) (k.marshal-Byte c)) (k.unmarshal-marshal c hs he hj),
        (early, inr late),
      ),
    )
