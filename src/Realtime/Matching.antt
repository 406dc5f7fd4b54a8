-- ===== src/Realtime/Matching.antt =====
-- internal/realtime/hub.go: which events concern a watched path, in terms of path segments.
use firego.Base.{
  ℕ, ◌≡◌, ◌≢◌, ◌↔◌, ◌⊎◌, refl, sym, ap, true, false, Bool-cases, inl, inr, some, List, [], ◌∷◌,
  ◌++◌, append_assoc, append-nil, Bytes, same, same_iff, same_refl, split, split-append, cons_head,
  ◌==◌, length, length-append, take, get_elem?, All, arith,
}
use firego.Paths.{slash, path_of, split_path, split_path-path_of, IsSegment, Lacks-segments}
use firego.Realtime.Hub.{matches, is_below, byte_is}

below_split :
    (p s : Bytes)
    → same (take (length p) s) p ≡ true
    → byte_is slash (get_elem? s (length p)) ≡ true
    → (t : Bytes) × (s ≡ p ++ slash ∷ t)
unfolding same
below_split [] [] h k = cc
below_split [] (c ∷ t) h k = (t, ground arith)
below_split (b ∷ p) [] h k = cc
below_split (b ∷ p) (c ∷ s) h k = let (t, e) = below_split p s (ground arith) k in (t, ground arith)

is_below→split : (p s : Bytes) → is_below p s ≡ true → (t : Bytes) × (s ≡ p ++ slash ∷ t)
unfolding is_below
is_below→split p s h = below_split p s (ground arith) (ground arith)

take_front : (p q : Bytes) → take (length p) (p ++ q) ≡ p
take_front [] q = refl
take_front (c ∷ p) q = ap (λ r. c ∷ r) (take_front p q)

get_behind : (p t : Bytes) → get_elem? (p ++ slash ∷ t) (length p) ≡ some slash
get_behind [] t = refl
get_behind (c ∷ p) t = get_behind p t

is_below-append : (p t : Bytes) → is_below p (p ++ slash ∷ t) ≡ true
unfolding is_below
is_below-append p t =
    rw (take_front p (slash ∷ t), get_behind p t, same_refl p)
      (ground (arith, length-append p (slash ∷ t)))

cons_head-append : (c : ℕ) (r q : List Bytes) → r ≢ [] → cons_head c (r ++ q) ≡ cons_head c r ++ q
cons_head-append c [] q h = absurd (h refl)
cons_head-append c (p ∷ r) q h = refl

cons_head-ne-nil : (c : ℕ) (r : List Bytes) → cons_head c r ≢ []
cons_head-ne-nil c [] = cc
cons_head-ne-nil c (p ∷ r) = cc

split-ne-nil : (s : Bytes) → split slash s ≢ []
unfolding split
split-ne-nil [] = cc
split-ne-nil (c ∷ s) = elim (Bool-cases (c == slash)) [
  | inl e ↦ rw e (cc)
  | inr e ↦ rw e (cons_head-ne-nil c (split slash s))
]

split_at_slash : (x t : Bytes) → split slash (x ++ slash ∷ t) ≡ split slash x ++ split slash t
unfolding split
split_at_slash [] t = refl
split_at_slash (c ∷ x) t = elim (Bool-cases (c == slash)) [
  | inl e ↦ rw (e, split_at_slash x t)
  | inr e ↦
      rw (e, split_at_slash x t)
        (cons_head-append c (split slash x) (split slash t) (split-ne-nil x))
]

split-path_of : (a : List Bytes) → All IsSegment a → split slash (path_of a) ≡ [] ∷ a
split-path_of a h = split-append slash [] a tt (Lacks-segments a h)

path_of-append : (a c : List Bytes) → path_of (a ++ c) ≡ path_of a ++ path_of c
path_of-append [] c = refl
path_of-append (x ∷ a) c = rw (path_of-append a c, append_assoc x (path_of a) (path_of c))

-- One path leads on from the other.
abbrev pub Extends : List Bytes → List Bytes → Type 0
Extends a b = (c : List Bytes) × (b ≡ a ++ c)

below→Extends :
    (a b : List Bytes)
    → All IsSegment a
    → All IsSegment b
    → is_below (path_of a) (path_of b) ≡ true
    → Extends a b
below→Extends a b ha hb h =
    let (t, e) = is_below→split (path_of a) (path_of b) h in
    (
      split slash t,
      cc (split-path_of a ha, split-path_of b hb, ap (split slash) e, split_at_slash (path_of a) t),
    )

matches-extension : (a c : List Bytes) → matches (path_of a) (path_of (a ++ c)) ≡ true
unfolding matches
matches-extension a [] = rw (append-nil a, same_refl (path_of a)) (ground arith)
matches-extension a (x ∷ c) =
    rw (path_of-append a (x ∷ c), is_below-append (path_of a) (x ++ path_of c)) (ground arith)

matches_extended : (a c : List Bytes) → matches (path_of (a ++ c)) (path_of a) ≡ true
unfolding matches
matches_extended a [] = rw (append-nil a, same_refl (path_of a)) (ground arith)
matches_extended a (x ∷ c) =
    rw (path_of-append a (x ∷ c), is_below-append (path_of a) (x ++ path_of c)) (ground arith)

same-path_of :
    (a b : List Bytes)
    → All IsSegment a
    → All IsSegment b
    → same (path_of a) (path_of b) ≡ true
    → a ≡ b
same-path_of a b ha hb h = cc (
  split_path-path_of a ha,
  split_path-path_of b hb,
  ap split_path ((same_iff (path_of a) (path_of b)).0 h),
)

matches→Extends :
    (a b : List Bytes)
    → All IsSegment a
    → All IsSegment b
    → matches (path_of a) (path_of b) ≡ true
    → Extends a b ⊎ Extends b a
unfolding matches
matches→Extends [] b ha hb h = inl (b, refl)
matches→Extends ([] ∷ a) b ha hb h = absurd ha.0
matches→Extends (x ∷ a) b ha hb h = elim (Bool-cases (same (path_of (x ∷ a)) (path_of b))) [
  | inl e ↦ inl ([], rw (append-nil a) (sym (same-path_of (x ∷ a) b ha hb e)))
  | inr e ↦ elim (Bool-cases (is_below (path_of (x ∷ a)) (path_of b))) [
    | inl u ↦ inl (below→Extends (x ∷ a) b ha hb u)
    | inr u ↦ inr (below→Extends b (x ∷ a) hb ha (ground arith))
  ]
]

-- The hub passes an event on exactly if its path is the watched one, or above or below it, for
-- paths that are written from their segments and of which the root's is empty.
pub matches_iff :
    (a b : List Bytes)
    → All IsSegment a
    → All IsSegment b
    → (matches (path_of a) (path_of b) ≡ true) ↔ (Extends a b ⊎ Extends b a)
matches_iff a b ha hb = (
  matches→Extends a b ha hb,
  elim [ inl (c, e) ↦ rw e (matches-extension a c) | inr (c, e) ↦ rw e (matches_extended b c) ],
)

-- Written as `/`, as the server and the database write it, the root concerns no other path: it
-- gets no event from below, and an event at the root reaches nobody below.
pub matches-root :
    (x : Bytes) (b : List Bytes)
    → IsSegment x
    → (matches (slash ∷ []) (path_of (x ∷ b)) ≡ false)
      × (matches (path_of (x ∷ b)) (slash ∷ []) ≡ false)
unfolding matches same
matches-root [] b h = absurd h
matches-root (c ∷ s) b h = (ground arith, ground arith)
