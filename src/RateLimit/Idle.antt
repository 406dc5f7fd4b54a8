-- ===== src/RateLimit/Idle.antt =====
-- internal/ratelimit/ratelimit.go: a client that has no running window, among requests of all clients.
use firego.Base.{
  ℕ, ◌+◌, ◌≤◌, ◌<◌, ◌≡◌, sym, subst, ◌∙◌, false, Bool-cases, inl, inr, List, [], ◌∷◌, Bytes, map,
  same, same_iff, All, arith,
}
use firego.RateLimit.Limiter.{Limiter, allow}
use firego.RateLimit.Budget.{
  Step, request, time_of, admitted, admitted-window, IsFresh, limit-allow, lookup-allow_ne,
}

-- The requests of clients at their times.
abbrev pub calls : List (Bytes × ℕ) → List Step
calls ps = map (λ p. request p.0 p.1) ps

module _ (key : Bytes) where
  dur-allow : (k : Bytes) (t : ℕ) (l : Limiter) → (allow k t l).1.dur ≡ l.dur
  unfolding allow
  dur-allow k t l = ground arith

  later-IsFresh : (t u : ℕ) (l : Limiter) → IsFresh key t l → t ≤ u → IsFresh key u l
  later-IsFresh t u l (inl e) le = inl e
  later-IsFresh t u l (inr (w, e, lt)) le = inr (w, e, omega arith)

  other-IsFresh :
      (k : Bytes) (t u : ℕ) (l : Limiter)
      → same k key ≡ false
      → IsFresh key t l
      → IsFresh key t (allow k u l).1
  other-IsFresh k t u l other (inl e) = inl (lookup-allow_ne k u l key other ∙ e)
  other-IsFresh k t u l other (inr (w, e, lt)) = inr (w, lookup-allow_ne k u l key other ∙ e, lt)

  calls-until :
      (t u d : ℕ) (ps : List (Bytes × ℕ))
      → t ≤ u
      → All (λ p. (t ≤ p.1) × (p.1 ≤ t + d)) ps
      → All (λ s. time_of s ≤ u + d) (calls ps)
  calls-until t u d [] le h = tt
  calls-until t u d (p ∷ ps) le (here, more) = (omega arith, calls-until t u d ps le more)

  -- A client that has no running window at a time gets no more requests through than the limit, up
  -- to one duration later.
  pub admitted-calls :
      (t : ℕ) (ps : List (Bytes × ℕ)) (l : Limiter)
      → IsFresh key t l
      → 0 < l.limit
      → All (λ p. (t ≤ p.1) × (p.1 ≤ t + l.dur)) ps
      → admitted key l (calls ps) ≤ l.limit
  unfolding admitted
  admitted-calls t [] l fresh pos h = omega arith
  admitted-calls t ((k, u) ∷ ps) l fresh pos (now, more) = elim (Bool-cases (same k key)) [
    | inl own ↦
        subst (λ j. admitted key l (request j u ∷ calls ps) ≤ l.limit)
          (sym ((same_iff k key).0 own))
          (omega (
            arith,
            admitted-window key u (calls ps) l (later-IsFresh t u l fresh now.0) pos
                (calls-until t u l.dur ps now.0 more),
          ))
    | inr other ↦
        let rest =
          admitted-calls t ps (allow k u l).1 (other-IsFresh k t u l other fresh)
            (subst (λ n. 0 < n) (sym (limit-allow k u l)) pos)
            (subst (λ d. All (λ p. (t ≤ p.1) × (p.1 ≤ t + d)) ps) (sym (dur-allow k u l)) more) in
        rw other (omega (arith, rest, limit-allow k u l))
  ]
