-- ===== src/Jwt/Base64.antt =====
-- internal/jwt/jwt.go: `b64encode` and `b64decode`, which are base64.RawURLEncoding: no padding, the
-- alphabet of URLs, line ends passed over on reading, unused low bits ignored.
use firego.Base.{
  ℕ, ◌+◌, ◌*◌, ◌-◌, ◌/◌, ◌%◌, ◌<◌, ◌≡◌, ◌≢◌, ap, refl, false, ◌||◌, Option, none, some, List, [],
  ◌∷◌, ◌>>=◌, Bytes, All, Lacks, ltb, ◌==◌, in_range, if◌then◌else◌, arith,
}

-- The character of six bits, and back.
unfoldable pub char_of : ℕ → ℕ
char_of d =
    if ltb d 26
    then d + 65
    else if ltb d 52
    then d + 71
    else if ltb d 62
    then d - 4
    else if d == 62
    then b'-'
    else b'_'

unfoldable pub digit_of : ℕ → Option ℕ
digit_of c =
    if in_range b'A' b'Z' c
    then some (c - 65)
    else if in_range b'a' b'z' c
    then some (c - 71)
    else if in_range b'0' b'9' c
    then some (c + 4)
    else if c == b'-'
    then some 62
    else if c == b'_'
    then some 63
    else none

-- The six-bit digits of bytes, three bytes at a time.
unfoldable pub digits : Bytes → List ℕ
digits [] = []
digits (a ∷ []) = (a / 4) ∷ ((a % 4) * 16) ∷ []
digits (a ∷ b ∷ []) = (a / 4) ∷ ((a % 4) * 16 + b / 16) ∷ ((b % 16) * 4) ∷ []
digits (a ∷ b ∷ c ∷ s) =
    (a / 4) ∷ ((a % 4) * 16 + b / 16) ∷ ((b % 16) * 4 + c / 64) ∷ (c % 64) ∷ digits s

unfoldable pub bytes : List ℕ → Option Bytes
bytes [] = some []
bytes (p ∷ []) = none
bytes (p ∷ q ∷ []) = some ((p * 4 + q / 16) ∷ [])
bytes (p ∷ q ∷ r ∷ []) = some ((p * 4 + q / 16) ∷ ((q % 16) * 16 + r / 4) ∷ [])
bytes (p ∷ q ∷ r ∷ t ∷ ds) = do
  s ← bytes ds
  some ((p * 4 + q / 16) ∷ ((q % 16) * 16 + r / 4) ∷ ((r % 4) * 64 + t) ∷ s)

unfoldable pub chars : List ℕ → Bytes
chars [] = []
chars (d ∷ ds) = char_of d ∷ chars ds

-- The digits of a text without its line ends.
unfoldable pub values : Bytes → Option (List ℕ)
unfolding digit_of
values [] = some []
values (c ∷ s) =
    let rest = values s in
    if c == 10 || c == 13 then rest else (do d ← digit_of c; ds ← rest; some (d ∷ ds))

unfoldable pub b64encode : Bytes → Bytes
unfolding chars digits char_of
b64encode s = chars (digits s)

unfoldable pub b64decode : Bytes → Option Bytes
unfolding values bytes
b64decode s = do ds ← values s; bytes ds

abbrev pub Byte : ℕ → Type 0
Byte c = c < 256

abbrev pub Digit : ℕ → Type 0
Digit d = d < 64

digit_of-char_of : (d : ℕ) → d < 64 → digit_of (char_of d) ≡ some d
unfolding digit_of char_of
digit_of-char_of d h = ground arith

char_of-cases : (d : ℕ) → d < 64 → ((char_of d == 10 || char_of d == 13) ≡ false)
unfolding char_of
char_of-cases d h = ground arith

values-chars : (ds : List ℕ) → All Digit ds → values (chars ds) ≡ some ds
unfolding values chars
values-chars [] h = refl
values-chars (d ∷ ds) h = simp (char_of-cases d h.0, digit_of-char_of d h.0, values-chars ds h.1)

digits-Digit : (s : Bytes) → All Byte s → All Digit (digits s)
unfolding digits
digits-Digit [] h = tt
digits-Digit (a ∷ []) h = (omega arith, (omega arith, tt))
digits-Digit (a ∷ b ∷ []) h = (omega arith, (omega arith, (omega arith, tt)))
digits-Digit (a ∷ b ∷ c ∷ s) h =
    (omega arith, (omega arith, (omega arith, (omega arith, digits-Digit s h.1.1.1))))

first_byte : (a b : ℕ) → b < 256 → a / 4 * 4 + (a % 4 * 16 + b / 16) / 16 ≡ a
first_byte a b h = omega arith

second_byte :
    (a b c : ℕ)
    → b < 256
    → c < 256
    → (a % 4 * 16 + b / 16) % 16 * 16 + (b % 16 * 4 + c / 64) / 4 ≡ b
second_byte a b c h i = omega arith

third_byte : (b c : ℕ) → c < 256 → (b % 16 * 4 + c / 64) % 4 * 64 + c % 64 ≡ c
third_byte b c h = omega arith

bytes-digits : (s : Bytes) → All Byte s → bytes (digits s) ≡ some s
unfolding bytes digits
bytes-digits [] h = refl
bytes-digits (a ∷ []) h = ap (λ x. some (x ∷ [])) (omega arith)
bytes-digits (a ∷ b ∷ []) h = rw (first_byte a b h.1.0) (ap (λ x. some (a ∷ x ∷ [])) (omega arith))
bytes-digits (a ∷ b ∷ c ∷ s) h =
    rw (first_byte a b h.1.0, second_byte a b c h.1.0 h.1.1.0, third_byte b c h.1.1.0)
      (ap (λ r. r >>= (λ s'. some (a ∷ b ∷ c ∷ s'))) (bytes-digits s h.1.1.1))

pub b64decode-b64encode : (s : Bytes) → All Byte s → b64decode (b64encode s) ≡ some s
unfolding b64decode b64encode
b64decode-b64encode s h = simp (values-chars (digits s) (digits-Digit s h), bytes-digits s h)

char_of_dotless : (d : ℕ) → d < 64 → char_of d ≢ b'.'
unfolding char_of
char_of_dotless d h = ground arith

chars-Lacks : (ds : List ℕ) → All Digit ds → Lacks b'.' (chars ds)
unfolding chars
chars-Lacks [] h = tt
chars-Lacks (d ∷ ds) h = (char_of_dotless d h.0, chars-Lacks ds h.1)

pub b64encode-Lacks : (s : Bytes) → All Byte s → Lacks b'.' (b64encode s)
unfolding b64encode
b64encode-Lacks s h = chars-Lacks (digits s) (digits-Digit s h)
