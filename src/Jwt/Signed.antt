-- ===== src/Jwt/Signed.antt =====
-- internal/jwt/jwt.go: the tokens that `Parse` accepts.
use firego.Base.{
  ℕ, ◌+◌, ◌≤◌, ◌≡◌, ◌↔◌, ◌⊎◌, ◌∙◌, inl, inr, refl, ap, sym, subst, Bool-cases, Option-cases, some,
  some_inj, List, [], ◌∷◌, ◌++◌, ◌>>=◌, append-nil, Bytes, same, same_iff, same_refl, split,
  AreParts, split-AreParts, split-append, Lacks, arith,
}
use firego.Jwt.Base64.{b64decode, b64encode-Lacks}
use firego.Jwt.Token.{Claims, Codec, unix, sign, in_time, parse_parts, parse_split, parse}

-- The claims hold at a time.
abbrev pub InTime : Claims → ℕ → Type 0
InTime c now = (c.issued_at ≤ now + 30) × ((c.expires_at ≡ 0) ⊎ (now ≤ c.expires_at))

-- The token is made of a header, claims and their signature, and the claims hold.
abbrev pub Signs : Codec → Bytes → ℕ → Claims → Bytes → Bytes → Bytes → Type 0
Signs k secret now c p q token =
    (token ≡ p ++ b'.' ∷ (q ++ b'.' ∷ sign k (p ++ b'.' ∷ q) secret))
    × Lacks b'.' p
    × Lacks b'.' q
    × ((b64decode q >>= k.unmarshal) ≡ some c)
    × InTime c (unix now)

module _ (k : Codec) where
  in_time-some : (c : Claims) (now : ℕ) → InTime c now → in_time k c now ≡ some c
  in_time-some c now h = ground arith

  in_time_inv : (c d : Claims) (now : ℕ) → in_time k c now ≡ some d → (c ≡ d) × InTime c now
  in_time_inv c d now h = ground arith

  pub sign-Lacks : (input secret : Bytes) → Lacks b'.' (sign k input secret)
  unfolding sign
  sign-Lacks input secret = b64encode-Lacks (k.mac secret input) (k.mac-Byte secret input)

  pub split-signed :
      (p q r : Bytes)
      → Lacks b'.' p
      → Lacks b'.' q
      → Lacks b'.' r
      → split b'.' (p ++ b'.' ∷ (q ++ b'.' ∷ r)) ≡ p ∷ q ∷ r ∷ []
  split-signed p q r hp hq hr =
      ap (λ e. split b'.' (p ++ b'.' ∷ (q ++ b'.' ∷ e))) (sym (append-nil r))
      ∙ split-append b'.' p (q ∷ r ∷ []) hp (hq, (hr, tt))

  parse_parts-some :
      (p q secret : Bytes) (now : ℕ) (c : Claims)
      → (b64decode q >>= k.unmarshal) ≡ some c
      → InTime c (unix now)
      → parse_parts k p q (sign k (p ++ b'.' ∷ q) secret) secret now ≡ some c
  unfolding parse_parts
  parse_parts-some p q secret now c hc ht =
      rw (same_refl (sign k (p ++ b'.' ∷ q) secret)) (rw hc (in_time-some c (unix now) ht))

  parse-Signs :
      (secret p q token : Bytes) (now : ℕ) (c : Claims)
      → Signs k secret now c p q token
      → parse k token secret now ≡ some c
  unfolding parse
  parse-Signs secret p q token now c (e, hp, hq, hc, ht) = rw e (
      ap (λ ps. parse_split k ps secret now)
        (split-signed p q _ hp hq (sign-Lacks (p ++ b'.' ∷ q) secret))
      ∙ parse_parts-some p q secret now c hc ht)

  parse_parts_inv :
      (p q r secret : Bytes) (now : ℕ) (c : Claims)
      → parse_parts k p q r secret now ≡ some c
      → (sign k (p ++ b'.' ∷ q) secret ≡ r)
        × ((b64decode q >>= k.unmarshal) ≡ some c)
        × InTime c (unix now)
  unfolding parse_parts
  parse_parts_inv p q r secret now c h = elim (Option-cases (b64decode q >>= k.unmarshal)) [
    | inl bad ↦ absurd (ground (arith, bad))
    | inr (d, good) ↦ elim (Bool-cases (same (sign k (p ++ b'.' ∷ q) secret) r)) [
      | inl ok ↦
          let e : parse_parts k p q r secret now ≡ in_time k d (unix now) = rw (ok, good) refl in
          let i = in_time_inv d c (unix now) (sym e ∙ h) in
          ((same_iff _ r).0 ok, good ∙ ap some i.0, subst (λ x. InTime x (unix now)) i.0 i.1)
      | inr ill ↦ absurd (ground (arith, ill))
    ]
  ]

  parse_cases :
      (secret token : Bytes) (now : ℕ) (c : Claims) (ps : List Bytes)
      → AreParts b'.' token ps
      → parse_split k ps secret now ≡ some c
      → (p : Bytes) × (q : Bytes) × Signs k secret now c p q token
  parse_cases secret token now c (p ∷ q ∷ r ∷ []) a h =
      let i = parse_parts_inv p q r secret now c h in
      let last = append-nil r ∙ sym i.0 in
      (p, q, (a.0 ∙ ap (λ e. p ++ b'.' ∷ (q ++ b'.' ∷ e)) last, a.1, a.2.0, i.1, i.2))
  parse_cases secret token now c [] a h = absurd cc
  parse_cases secret token now c (p ∷ []) a h = absurd cc
  parse_cases secret token now c (p ∷ q ∷ []) a h = absurd cc
  parse_cases secret token now c (p ∷ q ∷ r ∷ t ∷ ps) a h = absurd cc

  -- `Parse` accepts a token exactly if it is a header, claims and the signature of both under the
  -- secret, with dots between them, where the claims are what it returns and hold at that time:
  -- issued at most thirty seconds later, and not expired.
  pub parse_iff :
      (secret token : Bytes) (now : ℕ) (c : Claims)
      → (parse k token secret now ≡ some c)
        ↔ ((p : Bytes) × (q : Bytes) × Signs k secret now c p q token)
  unfolding parse
  parse_iff secret token now c = (
    parse_cases secret token now c (split b'.' token) (split-AreParts b'.' token),
    λ h. parse-Signs secret h.0 h.1 token now c h.2,
  )

  parse_split_same :
      (ps : List Bytes) (secret : Bytes) (now later : ℕ) (c d : Claims)
      → parse_split k ps secret now ≡ some c
      → parse_split k ps secret later ≡ some d
      → (d ≡ c) × InTime c (unix later)
  parse_split_same (p ∷ q ∷ r ∷ []) secret now later c d h i =
      let first = parse_parts_inv p q r secret now c h in
      let again = parse_parts_inv p q r secret later d i in
      let same_claims : d ≡ c = some_inj.0 (sym again.1 ∙ first.1) in
      (same_claims, subst (λ x. InTime x (unix later)) same_claims again.2)
  parse_split_same [] secret now later c d h i = absurd cc
  parse_split_same (p ∷ []) secret now later c d h i = absurd cc
  parse_split_same (p ∷ q ∷ []) secret now later c d h i = absurd cc
  parse_split_same (p ∷ q ∷ r ∷ t ∷ ps) secret now later c d h i = absurd cc

  -- A token that is accepted at two times stands for the same claims.
  pub parse_same :
      (token secret : Bytes) (now later : ℕ) (c d : Claims)
      → parse k token secret now ≡ some c
      → parse k token secret later ≡ some d
      → (d ≡ c) × InTime c (unix later)
  unfolding parse
  parse_same token secret = parse_split_same (split b'.' token) secret
