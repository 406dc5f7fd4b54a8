-- ===== src/Base/Texts.antt =====
-- Go strings as byte lists, and the functions of package strings that the program calls.
use Prim.Native.Nat.{ℕ}
use Prim.Native.Char.{code}
use Prim.Native.String.{String}
use mathlib.Core.Path.{◌≡◌, refl, ap}
use mathlib.Core.Logic.{◌↔◌, ◌≢◌, inl, inr}
use mathlib.Core.Bool.{Bool, true, false, ◌&&◌}
use mathlib.Core.List.{List, [], ◌∷◌, ◌++◌}
use native.Mathlib.Omega.{arith}
use firego.Base.Logic.{◌==◌, ==_iff, Bool-cases, if◌then◌else◌, All}

abbrev pub Bytes : Type 0
Bytes = List ℕ

-- The bytes of an ASCII literal.
abbrev pub codes : String → Bytes
codes String.[] = []
codes (String.◌∷◌ c s) = code c ∷ codes s

-- `a == b` on strings.
unfoldable pub same : Bytes → Bytes → Bool
same [] [] = true
same (a ∷ x) (b ∷ y) = a == b && same x y
same _ _ = false

pub same_iff : (x y : Bytes) → (same x y ≡ true) ↔ (x ≡ y)
unfolding same
same_iff [] [] = (λ h. refl, λ h. refl)
same_iff [] (b ∷ y) = (λ h. cc, λ h. cc)
same_iff (a ∷ x) [] = (λ h. cc, λ h. cc)
same_iff (a ∷ x) (b ∷ y) = (λ h. ground (arith, same_iff x y), λ h. ground (arith, same_iff x y))

pub same_refl : (x : Bytes) → same x x ≡ true
same_refl x = (same_iff x x).1 refl

pub same_ne : (x y : Bytes) → x ≢ y → same x y ≡ false
same_ne x y h = ground (arith, same_iff x y)

-- strings.HasPrefix(s, p)
unfoldable pub has_prefix : Bytes → Bytes → Bool
has_prefix s [] = true
has_prefix [] (b ∷ p) = false
has_prefix (a ∷ s) (b ∷ p) = a == b && has_prefix s p

abbrev pub is_empty : Bytes → Bool
is_empty [] = true
is_empty (c ∷ s) = false

-- strings.TrimLeft(s, c) and strings.TrimRight(s, c), for a cutset of one byte.
unfoldable pub trim_left : ℕ → Bytes → Bytes
trim_left b [] = []
trim_left b (c ∷ s) = if c == b then trim_left b s else c ∷ s

unfoldable pub trim_right : ℕ → Bytes → Bytes
trim_right b [] = []
trim_right b (c ∷ s) = let r = trim_right b s in if c == b && is_empty r then [] else c ∷ r

-- strings.Trim(s, c)
unfoldable pub trim : ℕ → Bytes → Bytes
unfolding trim_left trim_right
trim b s = trim_right b (trim_left b s)

abbrev pub cons_head : ℕ → List Bytes → List Bytes
cons_head c [] = (c ∷ []) ∷ []
cons_head c (p ∷ ps) = (c ∷ p) ∷ ps

-- strings.Split(s, c), for a separator of one byte: always at least one part.
unfoldable pub split : ℕ → Bytes → List Bytes
split b [] = [] ∷ []
split b (c ∷ s) = let r = split b s in if c == b then [] ∷ r else cons_head c r

-- Each part behind a separator.
abbrev pub separated : ℕ → List Bytes → Bytes
separated b [] = []
separated b (p ∷ ps) = b ∷ (p ++ separated b ps)

-- `p` does not hold the byte `b`.
abbrev pub Lacks : ℕ → Bytes → Type 0
Lacks b = All (λ c. c ≢ b)

pub split-append :
    (b : ℕ) (p : Bytes) (ps : List Bytes)
    → Lacks b p
    → All (Lacks b) ps
    → split b (p ++ separated b ps) ≡ p ∷ ps
unfolding split
split-append b [] [] h hs = refl
split-append b [] (q ∷ ps) h hs = ground (arith, split-append b q ps hs.0 hs.1)
split-append b (c ∷ p) ps h hs = ground (arith, split-append b p ps h.1 hs)

-- `ps` are the parts of `s` between the bytes `b`.
abbrev pub AreParts : ℕ → Bytes → List Bytes → Type 0
AreParts b s [] = ⊥
AreParts b s (p ∷ ps) = (s ≡ p ++ separated b ps) × Lacks b p × All (Lacks b) ps

cons-AreParts :
    (b c : ℕ) (s : Bytes) (ps : List Bytes)
    → c ≢ b
    → AreParts b s ps
    → AreParts b (c ∷ s) (cons_head c ps)
cons-AreParts b c s [] ne h = absurd h
cons-AreParts b c s (p ∷ ps) ne h = (ap (λ r. c ∷ r) h.0, (ne, h.1), h.2)

nil-AreParts :
    (b c : ℕ) (s : Bytes) (ps : List Bytes) → c ≡ b → AreParts b s ps → AreParts b (c ∷ s) ([] ∷ ps)
nil-AreParts b c s [] e h = absurd h
nil-AreParts b c s (p ∷ ps) e h = (cc (e, h.0), tt, (h.1, h.2))

pub split-AreParts : (b : ℕ) (s : Bytes) → AreParts b s (split b s)
unfolding split
split-AreParts b [] = (refl, tt, tt)
split-AreParts b (c ∷ s) = elim (Bool-cases (c == b)) [
  | inl here ↦ rw here (nil-AreParts b c s (split b s) ((==_iff c b).0 here) (split-AreParts b s))
  | inr other ↦
      rw other (cons-AreParts b c s (split b s) (ground (arith, ==_iff c b)) (split-AreParts b s))
]
