-- ===== src/Rules/Total.antt =====
-- internal/rules/rules.go: the evaluator returns on every list of tokens; its fuel suffices.
use firego.Base.{
  ℕ, zero, suc, ◌+◌, ◌*◌, ◌≤◌, ◌≡◌, refl, Option, none, some, List, [], ◌∷◌, Bytes, Dict, length,
  ◌>>=◌, arith,
}
use firego.Rules.Lexer.{Tok, ident, dot, quoted, eq, neq, and, or, not_, lp, rp}
use firego.Rules.Eval.{
  AuthCtx, Value, collect, skip_rp, parse_or, or_loop, parse_and, and_loop, parse_cmp, cmp_tail,
  parse_unary, parse_primary, fuel_for,
}

-- A value came back, with at most `n` tokens left.
abbrev pub Returns : Option (Value × List Tok) → ℕ → Type 0
Returns none n = ⊥
Returns (some (v, rest)) n = length rest ≤ n

Returns-bind :
    (m : Option (Value × List Tok)) (k : Value × List Tok → Option (Value × List Tok)) (n n' : ℕ)
    → Returns m n
    → ((v : Value) (rest : List Tok) → length rest ≤ n → Returns (k (v, rest)) n')
    → Returns (m >>= k) n'
Returns-bind none k n n' h g = absurd h
Returns-bind (some (v, rest)) k n n' h g = g v rest h

length-collect : (ts : List Tok) → length (collect ts).1 ≤ length ts
unfolding collect
length-collect [] = omega arith
length-collect (dot ∷ ident x ∷ ts) = omega (arith, length-collect ts)
length-collect (dot ∷ ts) = omega (arith, length-collect ts)
length-collect (_ ∷ ts) = omega arith

length-skip_rp : (ts : List Tok) → length (skip_rp ts) ≤ length ts
length-skip_rp [] = omega arith
length-skip_rp (rp ∷ ts) = omega arith
length-skip_rp (_ ∷ ts) = omega arith

module _ (auth : AuthCtx) (vars : Dict Bytes) where
  mutual
    unfolding parse_or

    parse_or-Returns :
        (f : ℕ) (ts : List Tok)
        → 6 * length ts + 6 ≤ f
        → Returns (parse_or auth vars f ts) (length ts)
    parse_or-Returns zero ts h = absurd (omega arith)
    parse_or-Returns (suc f) ts h =
        Returns-bind (parse_and auth vars f ts) _ (length ts) (length ts)
          (parse_and-Returns f ts (omega arith))
          λ v rest le. or_loop-Returns f v rest (length ts) (omega arith) le

    or_loop-Returns :
        (f : ℕ) (v : Value) (ts : List Tok) (n : ℕ)
        → 6 * length ts + 1 ≤ f
        → length ts ≤ n
        → Returns (or_loop auth vars f v ts) n
    or_loop-Returns zero v ts n h k = absurd (omega arith)
    or_loop-Returns (suc f) v (or ∷ ts) n h k =
        Returns-bind (parse_and auth vars f ts) _ (length ts) n
          (parse_and-Returns f ts (omega arith))
          λ r rest le. or_loop-Returns f _ rest n (omega arith) (omega arith)
    or_loop-Returns (suc f) v ts n h k = k

    parse_and-Returns :
        (f : ℕ) (ts : List Tok)
        → 6 * length ts + 5 ≤ f
        → Returns (parse_and auth vars f ts) (length ts)
    parse_and-Returns zero ts h = absurd (omega arith)
    parse_and-Returns (suc f) ts h =
        Returns-bind (parse_cmp auth vars f ts) _ (length ts) (length ts)
          (parse_cmp-Returns f ts (omega arith))
          λ v rest le. and_loop-Returns f v rest (length ts) (omega arith) le

    and_loop-Returns :
        (f : ℕ) (v : Value) (ts : List Tok) (n : ℕ)
        → 6 * length ts + 1 ≤ f
        → length ts ≤ n
        → Returns (and_loop auth vars f v ts) n
    and_loop-Returns zero v ts n h k = absurd (omega arith)
    and_loop-Returns (suc f) v (and ∷ ts) n h k =
        Returns-bind (parse_cmp auth vars f ts) _ (length ts) n
          (parse_cmp-Returns f ts (omega arith))
          λ r rest le. and_loop-Returns f _ rest n (omega arith) (omega arith)
    and_loop-Returns (suc f) v ts n h k = k

    parse_cmp-Returns :
        (f : ℕ) (ts : List Tok)
        → 6 * length ts + 4 ≤ f
        → Returns (parse_cmp auth vars f ts) (length ts)
    parse_cmp-Returns zero ts h = absurd (omega arith)
    parse_cmp-Returns (suc f) ts h =
        Returns-bind (parse_unary auth vars f ts) _ (length ts) (length ts)
          (parse_unary-Returns f ts (omega arith))
          λ v rest le. cmp_tail-Returns f v rest (length ts) (omega arith) le

    cmp_tail-Returns :
        (f : ℕ) (v : Value) (ts : List Tok) (n : ℕ)
        → 6 * length ts + 1 ≤ f
        → length ts ≤ n
        → Returns (cmp_tail auth vars f v ts) n
    cmp_tail-Returns zero v ts n h k = absurd (omega arith)
    cmp_tail-Returns (suc f) v (eq _ ∷ ts) n h k =
        Returns-bind (parse_unary auth vars f ts) _ (length ts) n
          (parse_unary-Returns f ts (omega arith)) λ r rest le. omega arith
    cmp_tail-Returns (suc f) v (neq _ ∷ ts) n h k =
        Returns-bind (parse_unary auth vars f ts) _ (length ts) n
          (parse_unary-Returns f ts (omega arith)) λ r rest le. omega arith
    cmp_tail-Returns (suc f) v ts n h k = k

    parse_unary-Returns :
        (f : ℕ) (ts : List Tok)
        → 6 * length ts + 3 ≤ f
        → Returns (parse_unary auth vars f ts) (length ts)
    parse_unary-Returns zero ts h = absurd (omega arith)
    parse_unary-Returns (suc f) (not_ ∷ ts) h =
        Returns-bind (parse_unary auth vars f ts) _ (length ts) (suc (length ts))
          (parse_unary-Returns f ts (omega arith)) λ r rest le. omega arith
    parse_unary-Returns (suc f) ts h = parse_primary-Returns f ts (omega arith)

    parse_primary-Returns :
        (f : ℕ) (ts : List Tok)
        → 6 * length ts + 2 ≤ f
        → Returns (parse_primary auth vars f ts) (length ts)
    parse_primary-Returns zero ts h = absurd (omega arith)
    parse_primary-Returns (suc f) (lp ∷ ts) h =
        Returns-bind (parse_or auth vars f ts) _ (length ts) (suc (length ts))
          (parse_or-Returns f ts (omega arith)) λ r rest le. omega (arith, length-skip_rp rest)
    parse_primary-Returns (suc f) (quoted s ∷ ts) h = omega arith
    parse_primary-Returns (suc f) (ident x ∷ ts) h = omega (arith, length-collect ts)
    parse_primary-Returns (suc f) [] h = omega arith
    parse_primary-Returns (suc f) ts h = omega arith

some_of_Returns :
    (m : Option (Value × List Tok)) (n : ℕ)
    → Returns m n
    → (v : Value) × (rest : List Tok) × (m ≡ some (v, rest)) × (length rest ≤ n)
some_of_Returns none n h = absurd h
some_of_Returns (some (v, rest)) n h = (v, rest, refl, h)

-- Whatever the tokens, the evaluator comes back with a value within the fuel that `eval_expr` gives
-- it, and leaves no more tokens than it was given.
pub parse_or_total :
    (auth : AuthCtx) (vars : Dict Bytes) (ts : List Tok)
    → (v : Value) × (rest : List Tok) × (parse_or auth vars (fuel_for ts) ts ≡ some (v, rest))
      × (length rest ≤ length ts)
parse_or_total auth vars ts =
    some_of_Returns _ (length ts) (parse_or-Returns auth vars (fuel_for ts) ts (omega arith))
