-- ===== src/Database/Order.antt =====
-- internal/database/database.go: push keys sort in the order of their creation.
use firego.Base.{
  ℕ, zero, suc, ◌/◌, ◌%◌, ◌^◌, ◌≤◌, ◌<◌, ◌≡◌, refl, ap, ◌∙◌, ◌⊎◌, Bool, true, false, ◌&&◌, ◌||◌,
  Bool-cases, length, get_elem?, inl, inr, List, [], ◌∷◌, ◌++◌, map, Bytes, ◌==◌, ==_iff, ltb, All,
  arith,
}
use firego.Database.PushId.{
  push_chars, or_zero, push_char, Generator, time_loop, increment, digits_of, generate_push_id,
}

-- s < t, in the order of Go's strings.
unfoldable pub less : Bytes → Bytes → Bool
less [] [] = false
less [] (b ∷ t) = true
less (a ∷ s) [] = false
less (a ∷ s) (b ∷ t) = ltb a b || (a == b && less s t)

-- Each byte is below the next one.
abbrev ascends : Bytes → Bool
ascends (c ∷ d ∷ s) = let rest = ascends (d ∷ s) in ltb c d && rest
ascends _ = true

next_above :
    (s : Bytes) (i : ℕ)
    → ascends s ≡ true
    → suc i < length s
    → or_zero (get_elem? s i) < or_zero (get_elem? s (suc i))
next_above [] i h lt = absurd (omega arith)
next_above (c ∷ []) i h lt = absurd (omega arith)
next_above (c ∷ d ∷ s) zero h lt = ground arith
next_above (c ∷ d ∷ s) (suc i) h lt = next_above (d ∷ s) i (ground arith) (omega arith)

push_char-suc : (d : ℕ) → d < 63 → push_char d < push_char (suc d)
unfolding push_char
push_char-suc d h = next_above push_chars d refl (omega arith)

-- The alphabet is in ascending order.
push_char_mono : (d e : ℕ) → d < e → e < 64 → push_char d < push_char e
push_char_mono d zero lt h = absurd (omega arith)
push_char_mono d (suc e) lt h = elim (Bool-cases (d == e)) [
  | inl same ↦ rw ((==_iff d e).0 same) (push_char-suc e (omega arith))
  | inr other ↦
      let before : d < e = ground arith in
      omega (arith, push_char_mono d e before (omega arith), push_char-suc e (omega arith))
]

less_after_prefix : (p s t : Bytes) → less (p ++ s) (p ++ t) ≡ less s t
unfolding less
less_after_prefix [] s t = refl
less_after_prefix (c ∷ p) s t = ground (arith, less_after_prefix p s t)

time_loop-append : (n now : ℕ) (x u : Bytes) → time_loop n now x ++ u ≡ time_loop n now (x ++ u)
unfolding time_loop
time_loop-append zero now x u = refl
time_loop-append (suc n) now x u = time_loop-append n (now / 64) (push_char (now % 64) ∷ x) u

less-time_loop : (n now : ℕ) (x y : Bytes) → less (time_loop n now x) (time_loop n now y) ≡ less x y
unfolding time_loop
less-time_loop zero now x y = refl
less-time_loop (suc n) now x y =
    less-time_loop n (now / 64) _ _ ∙ less_after_prefix (push_char (now % 64) ∷ []) x y

-- `n` digits to the base 64 are enough for the number.
abbrev Fits : ℕ → ℕ → Type 0
Fits zero b = b ≡ 0
Fits (suc n) b = Fits n (b / 64)

less_head : (a b : ℕ) (x y : Bytes) → a < b → less (a ∷ x) (b ∷ y) ≡ true
unfolding less
less_head a b x y h = ground arith

quotient_cases : (a b : ℕ) → a < b → (a / 64 < b / 64) ⊎ ((a / 64 ≡ b / 64) × (a % 64 < b % 64))
quotient_cases a b h = grind arith

less_later :
    (n a b : ℕ) (x y : Bytes) → a < b → Fits n b → less (time_loop n a x) (time_loop n b y) ≡ true
unfolding time_loop
less_later zero a b x y h f = absurd (omega arith)
less_later (suc n) a b x y h f = elim (quotient_cases a b h) [
  | inl q ↦ less_later n (a / 64) (b / 64) _ _ q f
  | inr (q, r) ↦ rw q (
      less-time_loop n (b / 64) _ _
      ∙ less_head _ _ x y (push_char_mono (a % 64) (b % 64) r (omega arith)))
]

-- The increment runs over only from the last of all suffixes.
increment_carry : (ds : List ℕ) → (increment ds).1 ≡ true → All (λ d. d ≡ 63) ds
unfolding increment
increment_carry [] h = tt
increment_carry (d ∷ ds) h = elim (Bool-cases (increment ds).1) [
  | inl c ↦ (ground arith, increment_carry ds c)
  | inr c ↦ cc (ap (λ (r : List ℕ × Bool). r.1) (stop_at d ds c), h)
]
  where
    stop_at :
        (d : ℕ) (ds : List ℕ)
        → (increment ds).1 ≡ false
        → increment (d ∷ ds) ≡ (d ∷ (increment ds).0, false)
    stop_at d ds c = rw c

less-increment :
    (ds : List ℕ)
    → All (λ d. d < 64) ds
    → (increment ds).1 ≡ false
    → less (map push_char ds) (map push_char (increment ds).0) ≡ true
unfolding increment
less-increment [] h c = cc
less-increment (d ∷ ds) h c = elim (Bool-cases (increment ds).1) [
  | inl over ↦
      let room : d < 63 = ground (arith, h.0) in
      let stop : (d == 63) ≡ false = ground arith in
      rw (over, stop) (less_head (push_char d) (push_char (suc d)) _ _ (push_char-suc d room))
  | inr stop ↦ rw stop (less_after_prefix (push_char d ∷ []) _ _ ∙ less-increment ds h.1 stop)
]

digits_of-lt : (bs : List ℕ) → All (λ d. d < 64) (digits_of bs)
digits_of-lt [] = tt
digits_of-lt (b ∷ bs) = (omega arith, digits_of-lt bs)

increment-lt : (ds : List ℕ) → All (λ d. d < 64) ds → All (λ d. d < 64) (increment ds).0
unfolding increment
increment-lt [] h = tt
increment-lt (d ∷ ds) h = elim (Bool-cases (increment ds).1) [
  | inl over ↦ rw over (elim (Bool-cases (d == 63)) [
    | inl e ↦ rw e (omega arith, increment-lt ds h.1)
    | inr e ↦ rw e (ground (arith, h.0), increment-lt ds h.1)
  ])
  | inr stop ↦ rw stop (h.0, increment-lt ds h.1)
]

-- The suffix of a generator that was used holds digits.
generate-lt :
    (now : ℕ) (random : List ℕ) (g : Generator)
    → All (λ d. d < 64) g.last_rand
    → All (λ d. d < 64) (generate_push_id now random g).1.last_rand
unfolding generate_push_id
generate-lt now random g h = elim (Bool-cases (now == g.last_time)) [
  | inl e ↦ rw e (increment-lt g.last_rand h)
  | inr e ↦ rw e (digits_of-lt random)
]

abbrev id_of : ℕ → List ℕ → Bytes
id_of now rand = time_loop 8 now [] ++ map push_char rand

-- A key of a later time, below 2^48 milliseconds, sorts behind; so does one of the same time whose
-- suffix does.
later_id : (a b : ℕ) (x y : List ℕ) → a < b → b < 64 ^ 8 → less (id_of a x) (id_of b y) ≡ true
later_id a b x y h f =
    rw (time_loop-append 8 a [] (map push_char x), time_loop-append 8 b [] (map push_char y))
      (less_later 8 a b _ _ h (omega arith))

generate_same :
    (now : ℕ) (random : List ℕ) (g : Generator)
    → now ≡ g.last_time
    → (generate_push_id now random g).0 ≡ id_of now (increment g.last_rand).0
unfolding generate_push_id
generate_same now random g e = rw ((==_iff now g.last_time).1 e)

generate_id :
    (now : ℕ) (random : List ℕ) (g : Generator)
    → (generate_push_id now random g).0 ≡ id_of now (generate_push_id now random g).1.last_rand
unfolding generate_push_id
generate_id now random g = refl

time_of_generate :
    (now : ℕ) (random : List ℕ) (g : Generator) → (generate_push_id now random g).1.last_time ≡ now
unfolding generate_push_id
time_of_generate now random g = refl

no_carry : (ds : List ℕ) → ¬ (All (λ d. d ≡ 63) ds) → (increment ds).1 ≡ false
no_carry ds h = elim (Bool-cases (increment ds).1) [
  | inl c ↦ absurd (h (increment_carry ds c))
  | inr c ↦ c
]

same_time :
    (now : ℕ) (ds : List ℕ)
    → All (λ d. d < 64) ds
    → ¬ (All (λ d. d ≡ 63) ds)
    → less (id_of now ds) (id_of now (increment ds).0) ≡ true
same_time now ds h room =
    less_after_prefix (time_loop 8 now []) _ _ ∙ less-increment ds h (no_carry ds room)

next_id :
    (now now' : ℕ) (random' : List ℕ) (g : Generator)
    → g.last_time ≡ now
    → All (λ d. d < 64) g.last_rand
    → now ≤ now'
    → now' < 64 ^ 8
    → ¬ ((now ≡ now') × All (λ d. d ≡ 63) g.last_rand)
    → less (id_of now g.last_rand) (generate_push_id now' random' g).0 ≡ true
next_id now now' random' g t h le fits room = elim (Bool-cases (now == now')) [
  | inl e ↦
      let same_now : now ≡ now' = (==_iff now now').0 e in
      rw (generate_same now' random' g (cc (same_now, t)), ← same_now)
        (same_time now g.last_rand h (λ full. room (same_now, full)))
  | inr e ↦ rw (generate_id now' random' g) (later_id now now' g.last_rand _ (ground arith) fits)
]

-- Of two keys that are generated one after the other, the second sorts behind the first, if the
-- clock has not gone back and has not reached the year 10889, and unless the two share their
-- millisecond and the first has the last of all suffixes.
pub generate_push_id_ascends :
    (now now' : ℕ) (random random' : List ℕ) (g : Generator)
    → All (λ d. d < 64) g.last_rand
    → now ≤ now'
    → now' < 64 ^ 8
    → ¬ ((now ≡ now') × All (λ d. d ≡ 63) (generate_push_id now random g).1.last_rand)
    → less
        (generate_push_id now random g).0
        (generate_push_id now' random' (generate_push_id now random g).1).0
      ≡ true
generate_push_id_ascends now now' random random' g h le fits room = rw (generate_id now random g) (
    next_id now now' random' (generate_push_id now random g).1 (time_of_generate now random g)
      (generate-lt now random g h) le fits room)
