-- ===== src/Storage/Names.antt =====
-- internal/storage/storage.go: `sanitize`, with path.Clean on a rooted path.
use firego.Base.{
  ◌≡◌, ◌≢◌, refl, false, ◌⊎◌, inl, inr, List, [], ◌∷◌, ◌++◌, Bytes, codes, same, same_iff, is_empty,
  split, split-append, split-AreParts, AreParts, separated, Lacks, All, Bool-cases, ◌||◌,
  if◌then◌else◌, arith,
}
use firego.Paths.{slash}
use firego.Auth.Email.{trim_space}

abbrev pub pop : List Bytes → List Bytes
pop [] = []
pop (seg ∷ kept) = kept

-- What a segment does to those kept before it.
abbrev pub keep : Bytes → List Bytes → List Bytes
keep seg kept =
    if is_empty seg || same seg (codes ".")
    then kept
    else if same seg (codes "..")
    then pop kept
    else seg ∷ kept

-- path.Clean on the segments behind the root, with those kept so far, the last one first.
unfoldable pub clean : List Bytes → List Bytes → List Bytes
clean kept [] = kept
clean kept (seg ∷ segs) = clean (keep seg kept) segs

abbrev pub reversed : List Bytes → List Bytes → List Bytes
reversed [] out = out
reversed (seg ∷ segs) out = reversed segs (seg ∷ out)

abbrev pub join : List Bytes → Bytes
join [] = []
join (seg ∷ segs) = seg ++ separated slash segs

-- `sanitize`
unfoldable pub sanitize : Bytes → Bytes
unfolding clean trim_space split
sanitize name = join (reversed (clean [] (split slash (trim_space name))) [])

-- A segment that names something in its own directory.
abbrev pub IsPlain : Bytes → Type 0
IsPlain seg = (seg ≢ []) × (seg ≢ codes ".") × (seg ≢ codes "..") × Lacks slash seg

All-parts : (s : Bytes) (ps : List Bytes) → AreParts slash s ps → All (Lacks slash) ps
All-parts s [] h = tt
All-parts s (p ∷ ps) h = (h.1, h.2)

not_empty : (seg : Bytes) → is_empty seg ≡ false → seg ≢ []
not_empty [] h = absurd cc
not_empty (c ∷ seg) h = λ e. cc

not_same : (seg other : Bytes) → same seg other ≡ false → seg ≢ other
not_same seg other h = λ e. ground (arith, same_iff seg other)

pop-IsPlain : (kept : List Bytes) → All IsPlain kept → All IsPlain (pop kept)
pop-IsPlain [] h = tt
pop-IsPlain (seg ∷ kept) h = h.1

keep-IsPlain :
    (seg : Bytes) (kept : List Bytes)
    → All IsPlain kept
    → Lacks slash seg
    → All IsPlain (keep seg kept)
keep-IsPlain seg kept hk hs = elim (Bool-cases (is_empty seg)) [
  | inl nothing ↦ rw nothing hk
  | inr full ↦ elim (Bool-cases (same seg (codes "."))) [
    | inl here ↦ rw (full, here) hk
    | inr other ↦ elim (Bool-cases (same seg (codes ".."))) [
      | inl up ↦ rw (full, other, up) (pop-IsPlain kept hk)
      | inr plain ↦
          rw (full, other, plain)
            (
              (
                not_empty seg full,
                not_same seg (codes ".") other,
                not_same seg (codes "..") plain,
                hs,
              ),
              hk,
            )
    ]
  ]
]

clean-IsPlain :
    (kept segs : List Bytes)
    → All IsPlain kept
    → All (Lacks slash) segs
    → All IsPlain (clean kept segs)
unfolding clean
clean-IsPlain kept [] hk hs = hk
clean-IsPlain kept (seg ∷ segs) hk hs =
    clean-IsPlain (keep seg kept) segs (keep-IsPlain seg kept hk hs.0) hs.1

reversed-IsPlain :
    (segs out : List Bytes) → All IsPlain segs → All IsPlain out → All IsPlain (reversed segs out)
reversed-IsPlain [] out h ho = ho
reversed-IsPlain (seg ∷ segs) out h ho = reversed-IsPlain segs (seg ∷ out) h.1 (h.0, ho)

Lacks-plain : (segs : List Bytes) → All IsPlain segs → All (Lacks slash) segs
Lacks-plain [] h = tt
Lacks-plain (seg ∷ segs) h = (h.0.3, Lacks-plain segs h.1)

split-join :
    (segs : List Bytes)
    → All IsPlain segs
    → (join segs ≡ []) ⊎ All IsPlain (split slash (join segs))
split-join [] h = inl refl
split-join (seg ∷ segs) h = inr (rw (split-append slash seg segs h.0.3 (Lacks-plain segs h.1)) h)

-- The name that a request is given is empty, or a relative path whose segments are none of them
-- empty, `.` or `..`: it leads nowhere but into the directory of the objects.
pub sanitize-IsPlain :
    (name : Bytes) → (sanitize name ≡ []) ⊎ All IsPlain (split slash (sanitize name))
unfolding sanitize
sanitize-IsPlain name =
    let segs = split slash (trim_space name) in
    let parts = All-parts (trim_space name) segs (split-AreParts slash (trim_space name)) in
    split-join (reversed (clean [] segs) [])
      (reversed-IsPlain (clean [] segs) [] (clean-IsPlain [] segs tt parts) tt)
