-- ===== src/Jwt/Sample.antt =====
-- A codec for runs: claims as plain bytes, and a sum in the place of HMAC-SHA256.
use firego.Base.{
  ℕ, zero, suc, ◌+◌, ◌%◌, ◌≡◌, ◌≢◌, ◌<◌, refl, sym, ap, ◌∙◌, Option, none, some, false, [], ◌∷◌,
  ◌++◌, ◌>>=◌, Bytes, All, ◌==◌, if◌then◌else◌, arith,
}
use firego.Jwt.Base64.{Byte}
use firego.Jwt.Token.{Claims, Codec, IsAscii}

-- A text up to a byte that no ASCII text holds; a number as a row of ones.
text_out : Bytes → Bytes
text_out [] = 255 ∷ []
text_out (c ∷ s) = (c % 128) ∷ text_out s

text_in : Bytes → Option (Bytes × Bytes)
text_in [] = none
text_in (c ∷ s) =
    let rest = text_in s in if c == 255 then some ([], s) else (do (t, r) ← rest; some (c ∷ t, r))

number_out : ℕ → Bytes
number_out zero = 0 ∷ []
number_out (suc n) = 1 ∷ number_out n

number_in : Bytes → Option (ℕ × Bytes)
number_in [] = none
number_in (zero ∷ s) = some (0, s)
number_in (suc c ∷ s) = do (n, r) ← number_in s; some (suc n, r)

text_in-out : (s r : Bytes) → IsAscii s → text_in (text_out s ++ r) ≡ some (s, r)
unfolding text_in text_out
text_in-out [] r h = refl
text_in-out (c ∷ s) r h =
    let kept : c % 128 ≡ c = omega arith in
    let plain : (c == 255) ≡ false = ground arith in rw (text_in-out s r h.1, kept, plain) refl

number_in-out : (n : ℕ) (r : Bytes) → number_in (number_out n ++ r) ≡ some (n, r)
unfolding number_in number_out
number_in-out zero r = refl
number_in-out (suc n) r = rw (number_in-out n r) refl

marshal : Claims → Bytes
marshal c =
    text_out c.subject
    ++ (text_out c.email
        ++ (text_out c.jwtid ++ (number_out c.issued_at ++ (number_out c.expires_at ++ []))))

unmarshal : Bytes → Option Claims
unmarshal s = do
  (subject, s1) ← text_in s
  (email, s2) ← text_in s1
  (jwtid, s3) ← text_in s2
  (issued, s4) ← number_in s3
  (expires, s5) ← number_in s4
  some (record {
    subject = subject;
    email = email;
    jwtid = jwtid;
    issued_at = issued;
    expires_at = expires;
  })

unmarshal-marshal :
    (c : Claims)
    → IsAscii c.subject
    → IsAscii c.email
    → IsAscii c.jwtid
    → unmarshal (marshal c) ≡ some c
unfolding unmarshal marshal
unmarshal-marshal c hs he hj =
    rw
      (
        text_in-out c.subject _ hs,
        text_in-out c.email _ he,
        text_in-out c.jwtid _ hj,
        number_in-out c.issued_at _,
        number_in-out c.expires_at [],
      )
      refl

All-append : (s t : Bytes) → All Byte s → All Byte t → All Byte (s ++ t)
All-append [] t hs ht = ht
All-append (c ∷ s) t hs ht = (hs.0, All-append s t hs.1 ht)

text_out-Byte : (s : Bytes) → All Byte (text_out s)
unfolding text_out
text_out-Byte [] = (omega arith, tt)
text_out-Byte (c ∷ s) = (omega arith, text_out-Byte s)

number_out-Byte : (n : ℕ) → All Byte (number_out n)
unfolding number_out
number_out-Byte zero = (omega arith, tt)
number_out-Byte (suc n) = (omega arith, number_out-Byte n)

-- A sum in the place of HMAC-SHA256.
abbrev pub total : Bytes → ℕ
total [] = 0
total (c ∷ s) = c + total s

unfoldable pub sum_mac : Bytes → Bytes → Bytes
sum_mac secret input = (total (secret ++ input) % 256) ∷ []

instance pub sample : Codec
sample = record {
  mac = sum_mac;
  mac-Byte = λ secret input. unfold sum_mac in (omega arith, tt);
  marshal = marshal;
  marshal-Byte = λ c.
      unfold marshal in
      All-append (text_out c.subject) _ (text_out-Byte c.subject) (
        All-append (text_out c.email) _ (text_out-Byte c.email) (
          All-append (text_out c.jwtid) _ (text_out-Byte c.jwtid) (
            All-append (number_out c.issued_at) _ (number_out-Byte c.issued_at)
              (All-append (number_out c.expires_at) [] (number_out-Byte c.expires_at) tt))));
  unmarshal = unmarshal;
  unmarshal-marshal = unmarshal-marshal;
}

pub mac_lem : (secret input : Bytes) → sample.mac secret input ≡ sum_mac secret input
unfolding sample
mac_lem secret input = refl

-- Two secrets of one byte give each text two codes.
pub mac_apart :
    (c d : ℕ) (input : Bytes)
    → c < 256
    → d < 256
    → c ≢ d
    → sample.mac (c ∷ []) input ≢ sample.mac (d ∷ []) input
unfolding sum_mac
mac_apart c d input hc hd ne h =
    let sums : (c + total input) % 256 ≡ (d + total input) % 256 =
      ap first (sym (mac_lem (c ∷ []) input) ∙ h ∙ mac_lem (d ∷ []) input) in
    ne (omega (arith, sums))
  where
    first : Bytes → ℕ
    first [] = 0
    first (x ∷ xs) = x
