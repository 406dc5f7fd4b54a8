-- ===== src/Paths.antt =====
-- `splitPath`, which internal/rules/rules.go and internal/database/database.go both declare, and
-- paths that are written from their segments.
use firego.Base.{
  ℕ, ◌≡◌, ◌≢◌, refl, List, [], ◌∷◌, ◌++◌, Bytes, trim, trim_right, split, split-append, separated,
  Lacks, All, arith,
}

abbrev pub slash : ℕ
slash = 47

abbrev pub parts_of : Bytes → List Bytes
parts_of [] = []
parts_of (c ∷ s) = split slash (c ∷ s)

unfoldable pub split_path : Bytes → List Bytes
unfolding trim
split_path p = parts_of (trim slash p)

-- A segment that a path can hold: not empty, and with no slash in it.
abbrev pub IsSegment : Bytes → Type 0
IsSegment [] = ⊥
IsSegment (c ∷ s) = (c ≢ slash) × Lacks slash s

-- "/a/b/c"
abbrev pub path_of : List Bytes → Bytes
path_of = separated slash

pub trim_right-path_of :
    (s : Bytes) (ps : List Bytes)
    → Lacks slash s
    → All IsSegment ps
    → trim_right slash (s ++ path_of ps) ≡ s ++ path_of ps
unfolding trim_right
trim_right-path_of [] [] h hs = refl
trim_right-path_of [] ([] ∷ ps) h hs = absurd hs.0
trim_right-path_of [] ((d ∷ q) ∷ ps) h hs = ground (arith, trim_right-path_of q ps hs.0.1 hs.1)
trim_right-path_of (c ∷ s) ps h hs = ground (arith, trim_right-path_of s ps h.1 hs)

pub Lacks-segments : (ps : List Bytes) → All IsSegment ps → All (Lacks slash) ps
Lacks-segments [] h = tt
Lacks-segments ([] ∷ ps) h = absurd h.0
Lacks-segments ((c ∷ s) ∷ ps) h = (h.0, Lacks-segments ps h.1)

pub trim-path_of :
    (c : ℕ) (s : Bytes) (ps : List Bytes)
    → c ≢ slash
    → Lacks slash s
    → All IsSegment ps
    → trim slash (slash ∷ c ∷ (s ++ path_of ps)) ≡ c ∷ (s ++ path_of ps)
unfolding trim
trim-path_of c s ps hc h hs = ground (arith, trim_right-path_of s ps h hs)

-- The segments of a path that is written from its segments are these.
pub split_path-path_of : (ps : List Bytes) → All IsSegment ps → split_path (path_of ps) ≡ ps
unfolding split_path
split_path-path_of [] h = refl
split_path-path_of ([] ∷ ps) h = absurd h.0
split_path-path_of ((c ∷ s) ∷ ps) h =
    rw (trim-path_of c s ps h.0.0 h.0.1 h.1)
      (split-append slash (c ∷ s) ps h.0 (Lacks-segments ps h.1))
