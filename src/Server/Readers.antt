-- ===== src/Server/Readers.antt =====
-- internal/server/server.go: whom a request is from, and which paths it may name, as the bearer token
-- and the spelling of the path say.
use firego.Base.{
  ◌==◌, ==_iff, in_range, Option-cases, ℕ, ◌≡◌, ◌≢◌, ◌↔◌, ◌≤◌, refl, sym, ap, ◌∙◌, subst, Bool,
  true, false, not, ◌&&◌, ◌||◌, Bool-cases, Option, none, some, List, [], ◌∷◌, ◌++◌, Bytes, codes,
  same, same_iff, same_ne, is_empty, has_prefix, drop, length, trim, split, ◌⊎◌, inl, inr, All,
  arith,
}
use firego.Paths.{slash, split_path, parts_of}
use firego.Jwt.Token.{Codec}
use firego.Auth.Service.{User, Bcrypt, verify}
use firego.Rules.Eval.{AuthCtx}
use firego.Rules.Tree.{RuleNode}
use firego.Rules.Check.{RuleSet, can_read, check, check_root}
use firego.Rules.Access.{Grants, check_iff}
use firego.Apps.Manager.{App}
use firego.Server.Sessions.{verify-there}
use firego.Server.Guards.{extract_auth-known, verdict_cases}
use firego.Server.Database.{
  bearer, verified, extract_auth, or_nobody, validate_db_path, all_segments, is_segment,
  all_segment_bytes, is_segment_byte,
}

-- A letter or a digit of ASCII, an underscore, a hyphen or a dot.
abbrev pub PathByte : ℕ → Type 0
PathByte c =
    ((b'a' ≤ c) × (c ≤ b'z'))
    ⊎ ((b'A' ≤ c) × (c ≤ b'Z'))
    ⊎ ((b'0' ≤ c) × (c ≤ b'9'))
    ⊎ (c ≡ b'_')
    ⊎ (c ≡ b'-')
    ⊎ (c ≡ b'.')

-- A segment of a path of the database.
abbrev pub IsPlain : Bytes → Type 0
IsPlain seg = (seg ≢ []) × (seg ≢ codes ".") × (seg ≢ codes "..") × All PathByte seg

prefix_split : (s p : Bytes) → has_prefix s p ≡ true → s ≡ p ++ drop (length p) s
unfolding has_prefix
prefix_split s [] h = refl
prefix_split [] (c ∷ p) h = absurd cc
prefix_split (a ∷ s) (c ∷ p) h = ground (arith, prefix_split s p)

module _ (k : Codec) (b : Bcrypt) where
  -- The request has a bearer token that verifies as the user.
  abbrev pub ShowsToken : Bytes → ℕ → App → User → Type 0
  ShowsToken header now app user =
      (token : Bytes) × (header ≡ bearer ++ token) × (verify k b token now app.auth ≡ inr user)

  -- The user whose token a request has, or nobody if it has none that verifies.
  abbrev pub Reader : Bytes → ℕ → App → Option User → Type 0
  Reader header now app none = (user : User) → ShowsToken header now app user → ⊥
  Reader header now app (some user) = ShowsToken header now app user

  there_prefix :
      (header : Bytes)
      → (not (has_prefix header bearer) || is_empty (drop (length bearer) header)) ≡ false
      → header ≡ bearer ++ drop (length bearer) header
  there_prefix header h = prefix_split header bearer (ground (arith, h))

  shown_there :
      (header : Bytes) (now : ℕ) (app : App) (user : User)
      → ShowsToken header now app user
      → ((not (has_prefix header bearer) || is_empty (drop (length bearer) header)) ≡ false)
        × (verify k b (drop (length bearer) header) now app.auth ≡ inr user)
  shown_there header now app user (token, e, good) = (
    subst (λ h. (not (has_prefix h bearer) || is_empty (drop (length bearer) h)) ≡ false) (sym e)
        (verify-there k b token now app.auth user good),
    ap (λ h. verify k b (drop (length bearer) h) now app.auth) e ∙ good,
  )

  pub extract_auth-Reader :
      (header : Bytes) (now : ℕ) (app : App)
      → Reader header now app (or_nobody k b (extract_auth k b false header now app))
  unfolding extract_auth
  extract_auth-Reader header now app =
      elim (Bool-cases (not (has_prefix header bearer) || is_empty (drop (length bearer) header))) [
        | inl missing ↦
            rw missing (λ user shown. cc (missing, (shown_there header now app user shown).0))
        | inr there ↦ elim (verdict_cases (verify k b (drop (length bearer) header) now app.auth)) [
          | inl (e, bad) ↦
              let none_found : extract_auth k b false header now app ≡ some none =
                rw there (ap (verified k b false) bad) in
              subst (λ o. Reader header now app (or_nobody k b o)) (sym none_found)
                (λ user shown. cc (bad, (shown_there header now app user shown).1))
          | inr (u, good) ↦
              subst (λ o. Reader header now app (or_nobody k b o))
                (sym (extract_auth-known k b false header now app u there good))
                (drop (length bearer) header, there_prefix header there, good)
        ]
      ]

  nobody_else :
      (header : Bytes) (now : ℕ) (app : App) (o : Option User)
      → Reader header now app o
      → Reader header now app none
      → o ≡ none
  nobody_else header now app none h n = refl
  nobody_else header now app (some u) h n = absurd (n u h)

  pub Reader-extract_auth :
      (header : Bytes) (now : ℕ) (app : App) (o : Option User)
      → Reader header now app o
      → or_nobody k b (extract_auth k b false header now app) ≡ o
  Reader-extract_auth header now app none h =
      nobody_else header now app _ (extract_auth-Reader header now app) h
  Reader-extract_auth header now app (some u) h =
      let (there, good) = shown_there header now app u h in
      ap (or_nobody k b) (extract_auth-known k b false header now app u there good)

both : (x y : Bool) → (x && y) ≡ true → (x ≡ true) × (y ≡ true)
both true y h = (refl, h)
both false y h = absurd cc

in_range_iff : (lo hi c : ℕ) → (in_range lo hi c ≡ true) ↔ ((lo ≤ c) × (c ≤ hi))
in_range_iff lo hi c = (λ h. (ground arith, ground arith), λ h. ground arith)

byte_iff : (c : ℕ) → (is_segment_byte c ≡ true) ↔ PathByte c
byte_iff c = (byte_cases c, byte_of c)
  where
    byte_cases : (c : ℕ) → is_segment_byte c ≡ true → PathByte c
    byte_cases c h = elim (Bool-cases (in_range b'a' b'z' c)) [
      | inl e ↦ inl ((in_range_iff b'a' b'z' c).0 e)
      | inr e1 ↦ elim (Bool-cases (in_range b'A' b'Z' c)) [
        | inl e ↦ inr (inl ((in_range_iff b'A' b'Z' c).0 e))
        | inr e2 ↦ elim (Bool-cases (in_range b'0' b'9' c)) [
          | inl e ↦ inr (inr (inl ((in_range_iff b'0' b'9' c).0 e)))
          | inr e3 ↦ elim (Bool-cases (c == b'_')) [
            | inl e ↦ inr (inr (inr (inl ((==_iff c b'_').0 e))))
            | inr e4 ↦ elim (Bool-cases (c == b'-')) [
              | inl e ↦ inr (inr (inr (inr (inl ((==_iff c b'-').0 e)))))
              | inr e5 ↦
                  inr (inr (inr (inr (inr ((==_iff c b'.').0 (rw (e1, e2, e3, e4, e5) at h))))))
            ]
          ]
        ]
      ]
    ]

    byte_of : (c : ℕ) → PathByte c → is_segment_byte c ≡ true
    byte_of c (inl r) = ground arith
    byte_of c (inr (inl r)) = ground arith
    byte_of c (inr (inr (inl r))) = ground arith
    byte_of c (inr (inr (inr (inl e)))) = rw e refl
    byte_of c (inr (inr (inr (inr (inl e))))) = rw e refl
    byte_of c (inr (inr (inr (inr (inr e))))) = rw e refl

bytes_iff : (seg : Bytes) → (all_segment_bytes seg ≡ true) ↔ All PathByte seg
bytes_iff [] = (λ h. tt, λ h. refl)
bytes_iff (c ∷ seg) = (
  λ h.
      let (one, more) = both (is_segment_byte c) (all_segment_bytes seg) h in
      ((byte_iff c).0 one, (bytes_iff seg).0 more),
  λ h. rw ((byte_iff c).1 h.0, (bytes_iff seg).1 h.1) refl,
)

not_two :
    (c : ℕ) (seg : Bytes)
    → not (is_empty (c ∷ seg) || same (c ∷ seg) (codes ".") || same (c ∷ seg) (codes "..")) ≡ true
    → (c ∷ seg) ≢ codes ".."
not_two c seg h e = let two = (same_iff (c ∷ seg) (codes "..")).1 e in ground (arith, h, two)

is_segment_iff : (seg : Bytes) → (is_segment seg ≡ true) ↔ IsPlain seg
is_segment_iff [] = (λ h. absurd cc, λ h. absurd (h.0 refl))
is_segment_iff (c ∷ seg) = (
  λ h.
      let (named, bytes) = both _ (all_segment_bytes (c ∷ seg)) h in
      (
        λ e. cc,
        λ e. cc (named, (same_iff (c ∷ seg) (codes ".")).1 e),
        λ e. not_two c seg named e,
        (bytes_iff (c ∷ seg)).0 bytes,
      ),
  λ h.
      rw
        (
          same_ne (c ∷ seg) (codes ".") h.1,
          same_ne (c ∷ seg) (codes "..") h.2,
          (bytes_iff (c ∷ seg)).1 h.3,
        )
        refl,
)

segments_iff : (segs : List Bytes) → (all_segments segs ≡ true) ↔ All IsPlain segs
segments_iff [] = (λ h. tt, λ h. refl)
segments_iff (seg ∷ segs) = (
  λ h.
      let (one, more) = both (is_segment seg) (all_segments segs) h in
      ((is_segment_iff seg).0 one, (segments_iff segs).0 more),
  λ h. rw ((is_segment_iff seg).1 h.0, (segments_iff segs).1 h.1) refl,
)

parts_iff :
    (q : Bytes) → ((is_empty q || all_segments (split slash q)) ≡ true) ↔ All IsPlain (parts_of q)
parts_iff [] = (λ h. tt, λ h. refl)
parts_iff (c ∷ s) = segments_iff (split slash (c ∷ s))

-- A path is valid exactly if its segments are plain.
pub validate_iff : (p : Bytes) → (validate_db_path p ≡ true) ↔ All IsPlain (split_path p)
unfolding validate_db_path split_path
validate_iff p = parts_iff (trim slash p)

-- The rules, if there are any, grant the reading.
abbrev pub MayRead : RuleSet → Bytes → AuthCtx → Type 0
MayRead rs path auth =
    (n : RuleNode) × (rs.root ≡ some n) × Grants (codes "read") auth n [] (split_path path)

pub can_read_iff :
    (rs : RuleSet) (path : Bytes) (auth : AuthCtx)
    → (can_read rs path auth ≡ true) ↔ MayRead rs path auth
unfolding can_read check
can_read_iff rs path auth = elim (Option-cases rs.root) [
  | inl e ↦ (λ h. absurd (cc (rw (e, check_root) at h)), λ g. absurd (cc (e, g.1)))
  | inr (n, e) ↦ (
    λ h. (n, e, (check_iff (codes "read") auth rs n path e).0 h),
    λ g. (check_iff (codes "read") auth rs g.0 path g.1).1 g.2,
  )
]
