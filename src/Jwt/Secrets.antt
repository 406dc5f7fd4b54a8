-- ===== src/Jwt/Secrets.antt =====
-- internal/jwt/jwt.go: tokens under a secret that did not sign them.
use firego.Base.{
  ℕ, ◌≡◌, ◌≢◌, refl, sym, ap, ◌∙◌, Bool-cases, inl, inr, none, some_inj, ◌∷◌, ◌++◌, Bytes, same,
  same_iff, split, append_assoc,
}
use firego.Jwt.Base64.{b64encode, b64decode, b64decode-b64encode, b64encode-Lacks}
use firego.Jwt.Token.{
  Claims, Codec, header, stamp, sign, signing_input, sign_claims, parse_parts, parse_split, parse,
}
use firego.Jwt.Signed.{split-signed, sign-Lacks}
use firego.Jwt.Issued.{header-Byte}

module _ (k : Codec) where
  -- Signatures are as different as the codes they encode.
  sign_inv :
      (input secret other : Bytes)
      → sign k input other ≡ sign k input secret
      → k.mac secret input ≡ k.mac other input
  unfolding sign
  sign_inv input secret other h = some_inj.0 (
      sym (b64decode-b64encode (k.mac secret input) (k.mac-Byte secret input))
      ∙ ap b64decode (sym h)
      ∙ b64decode-b64encode (k.mac other input) (k.mac-Byte other input))

  parse_parts-other :
      (p q secret other : Bytes) (now : ℕ)
      → k.mac secret (p ++ b'.' ∷ q) ≢ k.mac other (p ++ b'.' ∷ q)
      → parse_parts k p q (sign k (p ++ b'.' ∷ q) secret) other now ≡ none
  unfolding parse_parts
  parse_parts-other p q secret other now differ =
      let input = p ++ b'.' ∷ q in
      elim (Bool-cases (same (sign k input other) (sign k input secret))) [
        | inl agree ↦
            absurd
              (differ (sign_inv input secret other ((same_iff (sign k input other) _).0 agree)))
        | inr apart ↦ rw apart refl
      ]

  -- A token is refused under a secret whose code of the signed text differs.
  pub parse-other :
      (claims : Claims) (secret other : Bytes) (ttl now later : ℕ)
      → k.mac secret (signing_input k claims ttl now) ≢ k.mac other (signing_input k claims ttl now)
      → parse k (sign_claims k claims secret ttl now) other later ≡ none
  unfolding parse sign_claims
  parse-other claims secret other ttl now later differ =
      let p = b64encode header in
      let q = b64encode (k.marshal (stamp claims ttl now)) in
      let r = sign k (p ++ b'.' ∷ q) secret in
      ap (λ t. parse_split k (split b'.' t) other later) (append_assoc p (b'.' ∷ q) (b'.' ∷ r))
      ∙ ap (λ ps. parse_split k ps other later)
          (split-signed k p q r (b64encode-Lacks header header-Byte)
            (b64encode-Lacks (k.marshal (stamp claims ttl now))
              (k.marshal-Byte (stamp claims ttl now)))
            (sign-Lacks k (p ++ b'.' ∷ q) secret))
      ∙ parse_parts-other p q secret other later differ
