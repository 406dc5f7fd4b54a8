-- ===== src/RateLimit/Budget.antt =====
-- internal/ratelimit/ratelimit.go: how many requests a limiter lets through.
use firego.Base.{
  ℕ, ◌+◌, ◌-◌, ◌≤◌, ◌<◌, ◌≡◌, ◌⊎◌, refl, Bool, true, false, Bool-cases, Option-cases, ◌∙◌, sym, ap,
  subst, inl, inr, none, some, List, [], ◌∷◌, Bytes, Dict, Unique, lookup, insert, lookup-insert,
  same, same_iff, same_refl, ltb, leb, if◌then◌else◌, All, arith,
}
use Prim.Native.Nat.{min}
use firego.RateLimit.Limiter.{Window, Limiter, allow, expire, cleanup}

-- What happens to a limiter: a request of a client, or a round of the cleanup, at a time.
pub data Step : Type 0 where
  request : Bytes → ℕ → Step
  clean : ℕ → Step

abbrev pub time_of : Step → ℕ
time_of (request k t) = t
time_of (clean t) = t

abbrev pub after_step : Limiter → Step → Limiter
after_step l (request k t) = (allow k t l).1
after_step l (clean t) = cleanup t l

-- One if the step is a request of the client that is let through.
abbrev pub admits : Bytes → Limiter → Step → ℕ
admits key l (request k t) = if same k key then (if (allow k t l).0 then 1 else 0) else 0
admits key l (clean t) = 0

abbrev pub asks : Bytes → Step → ℕ
asks key (request k t) = if same k key then 1 else 0
asks key (clean t) = 0

-- The requests of a client that a sequence of steps lets through, and those that it makes.
unfoldable pub admitted : Bytes → Limiter → List Step → ℕ
admitted key l [] = 0
admitted key l (s ∷ ss) = admits key l s + admitted key (after_step l s) ss

unfoldable pub asked : Bytes → List Step → ℕ
asked key [] = 0
asked key (s ∷ ss) = asks key s + asked key ss

lookup-expire :
    (key : Bytes) (now : ℕ) (m : Dict Window) (w : Window)
    → lookup key m ≡ some w
    → now ≤ w.reset
    → lookup key (expire now m) ≡ some w
unfolding lookup expire
lookup-expire key now [] w h le = cc
lookup-expire key now ((k, v) ∷ m) w h le = ground (arith, lookup-expire key now m w)

module _ (key : Bytes) (t : ℕ) (l : Limiter) where
  -- Any request leaves the limit and the windows of other clients alone.
  pub limit-allow : (allow key t l).1.limit ≡ l.limit
  unfolding allow
  limit-allow = ground arith

  pub lookup-allow_ne :
      (j : Bytes) → same key j ≡ false → lookup j (allow key t l).1.windows ≡ lookup j l.windows
  unfolding allow
  lookup-allow_ne j h = grind (arith, lookup-insert)

module _ (key : Bytes) (t : ℕ) (l : Limiter) (w : Window) (e : lookup key l.windows ≡ some w)
    (le : t ≤ w.reset) where
  allow_full : leb l.limit w.count ≡ true → allow key t l ≡ (false, l)
  unfolding allow
  allow_full full = rw (e, allow) (ground arith)

  counted : Limiter
  counted = record l { windows = insert key (record w { count = w.count + 1 }) l.windows }

  allow_room : leb l.limit w.count ≡ false → allow key t l ≡ (true, counted)
  unfolding allow counted
  allow_room room = rw (e, allow) (ground arith)

  lookup-counted : lookup key counted.windows ≡ some (record w { count = w.count + 1 })
  unfolding counted
  lookup-counted = rw (lookup-insert, same_refl key)

admitted_own :
    (key : Bytes) (t : ℕ) (l l' : Limiter) (b : Bool) (ss : List Step)
    → allow key t l ≡ (b, l')
    → admitted key l (request key t ∷ ss) ≡ (if b then 1 else 0) + admitted key l' ss
unfolding admitted
admitted_own key t l l' b ss e =
    rw (same_refl key) (ap (λ r. (if r.0 then 1 else 0) + admitted key r.1 ss) e)

asked_own :
    (key : Bytes) (t : ℕ) (ss : List Step) → asked key (request key t ∷ ss) ≡ 1 + asked key ss
unfolding asked
asked_own key t ss = rw (same_refl key)

-- A request of the client itself, before its window ends.
window_budget_own :
    (key : Bytes) (t : ℕ) (ss : List Step) (l : Limiter) (w : Window)
    → ((l' : Limiter) (w' : Window)
        → lookup key l'.windows ≡ some w'
        → w'.reset ≡ w.reset
        → admitted key l' ss ≡ min (asked key ss) (l'.limit - w'.count))
    → lookup key l.windows ≡ some w
    → t ≤ w.reset
    → admitted key l (request key t ∷ ss) ≡ min (asked key (request key t ∷ ss)) (l.limit - w.count)
unfolding counted
window_budget_own key t ss l w later e le = elim (Bool-cases (leb l.limit w.count)) [
  | inl full ↦ ground (
    arith,
    admitted_own key t l l false ss (allow_full key t l w e le full),
    asked_own key t ss,
    later l w e refl,
  )
  | inr room ↦ ground (
    arith,
    admitted_own key t l _ true ss (allow_room key t l w e le room),
    asked_own key t ss,
    later (counted key t l w e le) _ (lookup-counted key t l w e le) refl,
  )
]

-- Until the client's window ends, steps of all kinds and clients leave it in place: as many of the
-- client's requests pass as the window still has room for.
pub window_budget :
    (key : Bytes) (ss : List Step) (l : Limiter) (w : Window)
    → lookup key l.windows ≡ some w
    → All (λ s. time_of s ≤ w.reset) ss
    → admitted key l ss ≡ min (asked key ss) (l.limit - w.count)
unfolding admitted asked cleanup
window_budget key [] l w e h = omega arith
window_budget key (clean t ∷ ss) l w e h =
    omega (arith, window_budget key ss (cleanup t l) w (lookup-expire key t l.windows w e h.0) h.1)
window_budget key (request k t ∷ ss) l w e h = elim (Bool-cases (same k key)) [
  | inr other ↦ rw other (
      omega (
        arith,
        limit-allow k t l,
        window_budget key ss (allow k t l).1 w (lookup-allow_ne k t l key other ∙ e) h.1,
      ))
  | inl own ↦
      subst
        (λ j.
          admitted key l (request j t ∷ ss)
          ≡ min (asked key (request j t ∷ ss)) (l.limit - w.count))
        (sym ((same_iff k key).0 own))
        (window_budget_own key t ss l w
          (λ l' w' e' r.
            window_budget key ss l' w' e' (subst (λ n. All (λ s. time_of s ≤ n) ss) (sym r) h.1))
          e h.0)
]

-- The client has no window that still runs: none at all, or one that has ended.
abbrev pub IsFresh : Bytes → ℕ → Limiter → Type 0
IsFresh key t l =
    (lookup key l.windows ≡ none) ⊎ ((w : Window) × (lookup key l.windows ≡ some w) × (w.reset < t))

abbrev opened : Bytes → ℕ → Limiter → Limiter
opened key t l = record l {
  windows = insert key (record { count = 1; reset = t + l.dur }) l.windows;
}

allow_fresh :
    (key : Bytes) (t : ℕ) (l : Limiter) → IsFresh key t l → allow key t l ≡ (true, opened key t l)
unfolding allow
allow_fresh key t l (inl e) = rw (e, allow)
allow_fresh key t l (inr (w, e, lt)) = rw (e, allow) (ground arith)

lookup-opened :
    (key : Bytes) (t : ℕ) (l : Limiter)
    → lookup key (opened key t l).windows ≡ some (record { count = 1; reset = t + l.dur })
lookup-opened key t l = rw (lookup-insert, same_refl key)

-- A client that has no running window gets through, from a request at the time `t` to the end of
-- the window that this request opens, exactly as many requests as it makes or as the limit allows,
-- whichever is less, whatever other clients and the cleanup do in between.
pub admitted-window :
    (key : Bytes) (t : ℕ) (ss : List Step) (l : Limiter)
    → IsFresh key t l
    → 0 < l.limit
    → All (λ s. time_of s ≤ t + l.dur) ss
    → admitted key l (request key t ∷ ss) ≡ min (asked key (request key t ∷ ss)) l.limit
admitted-window key t ss l f pos h = ground (
  arith,
  admitted_own key t l (opened key t l) true ss (allow_fresh key t l f),
  asked_own key t ss,
  window_budget key ss (opened key t l) (record { count = 1; reset = t + l.dur })
      (lookup-opened key t l) h,
)

lookup-none-expire :
    (key : Bytes) (t : ℕ) (m : Dict Window) → lookup key m ≡ none → lookup key (expire t m) ≡ none
unfolding lookup expire
lookup-none-expire key t [] h = refl
lookup-none-expire key t ((k, v) ∷ m) h = ground (arith, lookup-none-expire key t m)

lookup_old-expire :
    (key : Bytes) (t : ℕ) (m : Dict Window) (w : Window)
    → Unique m
    → lookup key m ≡ some w
    → w.reset < t
    → lookup key (expire t m) ≡ none
unfolding lookup expire
lookup_old-expire key t [] w u h lt = cc
lookup_old-expire key t ((k, v) ∷ m) w u h lt = elim (Bool-cases (same k key)) [
  | inl own ↦
      let none_left : lookup key m ≡ none =
        subst (λ j. lookup j m ≡ none) ((same_iff k key).0 own) u.0 in
      ground (arith, lookup-none-expire key t m)
  | inr other ↦ ground (arith, lookup_old-expire key t m w)
]

allow_opens : (key : Bytes) (now : ℕ) (l : Limiter) → IsFresh key now l → (allow key now l).0 ≡ true
allow_opens key now l f = rw (allow_fresh key now l f)

verdict_of_lookup :
    (key : Bytes) (now : ℕ) (l l' : Limiter)
    → l.limit ≡ l'.limit
    → lookup key l.windows ≡ lookup key l'.windows
    → (allow key now l).0 ≡ (allow key now l').0
unfolding allow
verdict_of_lookup key now l l' same_limit e = ground arith

-- A round of the cleanup does not change what a request at its time or later is told.
pub allow-cleanup :
    (key : Bytes) (t now : ℕ) (l : Limiter)
    → Unique l.windows
    → t ≤ now
    → (allow key now (cleanup t l)).0 ≡ (allow key now l).0
unfolding cleanup
allow-cleanup key t now l u le = elim (Option-cases (lookup key l.windows)) [
  | inl e ↦
      verdict_of_lookup key now (cleanup t l) l refl (lookup-none-expire key t l.windows e ∙ sym e)
  | inr (w, e) ↦ elim (Bool-cases (ltb w.reset t)) [
    | inl old ↦
        allow_opens key now (cleanup t l)
          (inl (lookup_old-expire key t l.windows w u e (ground arith)))
        ∙ sym (allow_opens key now l (inr (w, e, ground arith)))
    | inr running ↦
        verdict_of_lookup key now (cleanup t l) l refl
          (lookup-expire key t l.windows w e (ground arith) ∙ sym e)
  ]
]
