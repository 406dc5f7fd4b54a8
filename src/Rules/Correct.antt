-- ===== src/Rules/Correct.antt =====
-- internal/rules/rules.go: on the tokens of an expression of the grammar the evaluator computes the
-- expression's meaning, with the precedences of the grammar.
use firego.Base.{
  ℕ, zero, suc, ◌+◌, ◌*◌, ◌≤◌, ◌<◌, ◌≡◌, refl, ap, Bool, true, false, ◌&&◌, ◌||◌, some, List, [],
  ◌∷◌, ◌++◌, append_assoc, Bytes, Dict, length, length-append, arith,
}
use firego.Rules.Lexer.{Tok, dot, eq, neq, and, or, rp}
use firego.Rules.Eval.{
  AuthCtx, Value, bool, is_truthy, collect, parse_or, or_loop, parse_and, and_loop, parse_cmp,
  cmp_tail, parse_unary, fuel_for,
}
use firego.Rules.Grammar.{
  Or, Ors, And, Ands, Cmp, Unary, Primary, or_of, no_or, or_then, and_of, no_and, and_then, single,
  equal, differ, bang, prim, paren, access, literal, dotted, print_or, print_ors, print_and,
  print_ands, print_cmp, print_unary, print_primary, or_value, and_value, mean_or, some_true,
  mean_and, all_true, mean_cmp, mean_unary, mean_primary,
}

-- How tightly the first token joins what stands before it.
abbrev pub binding : List Tok → ℕ
binding (or ∷ ts) = 1
binding (and ∷ ts) = 2
binding (eq op ∷ ts) = 3
binding (neq op ∷ ts) = 3
binding (dot ∷ ts) = 4
binding _ = 0

binding-ors : (os : Ors) (rest : List Tok) → binding rest < 1 → binding (print_ors os ++ rest) < 2
unfolding print_ors
binding-ors no_or rest h = omega arith
binding-ors (or_then a os) rest h = omega arith

binding-ands :
    (cs : Ands) (rest : List Tok) → binding rest < 2 → binding (print_ands cs ++ rest) < 3
unfolding print_ands
binding-ands no_and rest h = omega arith
binding-ands (and_then c cs) rest h = omega arith

collect-dotted :
    (xs : List Bytes) (rest : List Tok)
    → binding rest < 4
    → collect (dotted xs ++ rest) ≡ (xs, rest)
unfolding collect dotted
collect-dotted [] [] h = refl
collect-dotted [] (dot ∷ ts) h = absurd (omega arith)
collect-dotted [] (t ∷ ts) h = refl
collect-dotted (x ∷ xs) rest h = rw (collect-dotted xs rest h)

tokens-append : (xs ys : List Tok) → length (xs ++ ys) ≡ length xs + length ys
tokens-append = length-append

ruleset lengths = (arith, tokens-append)

or_step :
    (os : Ors) (v r : Value) (others : Bool)
    → (os ≡ no_or → others ≡ false)
    → or_value (bool (is_truthy v || is_truthy r)) os others
      ≡ bool (is_truthy v || (is_truthy r || others))
unfolding is_truthy
or_step no_or v r others h = rw (h refl) (ground arith)
or_step (or_then a os) v r others h = ground arith

and_step :
    (cs : Ands) (v r : Value) (others : Bool)
    → (cs ≡ no_and → others ≡ true)
    → and_value (bool (is_truthy v && is_truthy r)) cs others
      ≡ bool (is_truthy v && (is_truthy r && others))
unfolding is_truthy
and_step no_and v r others h = rw (h refl) (ground arith)
and_step (and_then c cs) v r others h = ground arith

module _ (auth : AuthCtx) (vars : Dict Bytes) where
  some_true-no_or : (os : Ors) → os ≡ no_or → some_true auth vars os ≡ false
  unfolding some_true
  some_true-no_or no_or h = refl
  some_true-no_or (or_then a os) h = cc

  all_true-no_and : (cs : Ands) → cs ≡ no_and → all_true auth vars cs ≡ true
  unfolding all_true
  all_true-no_and no_and h = refl
  all_true-no_and (and_then c cs) h = cc

  or_loop_stop :
      (f : ℕ) (v : Value) (ts : List Tok)
      → 0 < f
      → binding ts < 1
      → or_loop auth vars f v ts ≡ some (v, ts)
  unfolding or_loop
  or_loop_stop zero v ts p h = absurd (omega arith)
  or_loop_stop (suc f) v (or ∷ ts) p h = absurd (omega arith)
  or_loop_stop (suc f) v [] p h = refl
  or_loop_stop (suc f) v ts p h = refl

  and_loop_stop :
      (f : ℕ) (v : Value) (ts : List Tok)
      → 0 < f
      → binding ts < 2
      → and_loop auth vars f v ts ≡ some (v, ts)
  unfolding and_loop
  and_loop_stop zero v ts p h = absurd (omega arith)
  and_loop_stop (suc f) v (and ∷ ts) p h = absurd (omega arith)
  and_loop_stop (suc f) v [] p h = refl
  and_loop_stop (suc f) v ts p h = refl

  cmp_tail_stop :
      (f : ℕ) (v : Value) (ts : List Tok)
      → 0 < f
      → binding ts < 3
      → cmp_tail auth vars f v ts ≡ some (v, ts)
  unfolding cmp_tail
  cmp_tail_stop zero v ts p h = absurd (omega arith)
  cmp_tail_stop (suc f) v (eq op ∷ ts) p h = absurd (omega arith)
  cmp_tail_stop (suc f) v (neq op ∷ ts) p h = absurd (omega arith)
  cmp_tail_stop (suc f) v [] p h = refl
  cmp_tail_stop (suc f) v ts p h = refl

  mutual
    unfolding parse_or print_or mean_or

    parse_or-print :
        (e : Or) (rest : List Tok) (f : ℕ)
        → 6 * length (print_or e) + 6 ≤ f
        → binding rest < 1
        → parse_or auth vars f (print_or e ++ rest) ≡ some (mean_or auth vars e, rest)
    parse_or-print e rest zero h b = absurd (omega arith)
    parse_or-print (or_of a os) rest (suc f) h b =
        rw
          (
            append_assoc,
            parse_and-print a (print_ors os ++ rest) f (omega lengths) (binding-ors os rest b),
          )
          (or_loop-print os (mean_and auth vars a) rest f (omega lengths) b)

    or_loop-print :
        (os : Ors) (v : Value) (rest : List Tok) (f : ℕ)
        → 6 * length (print_ors os) + 1 ≤ f
        → binding rest < 1
        → or_loop auth vars f v (print_ors os ++ rest)
          ≡ some (or_value v os (some_true auth vars os), rest)
    or_loop-print os v rest zero h b = absurd (omega arith)
    or_loop-print no_or v rest (suc f) h b = or_loop_stop (suc f) v rest (omega arith) b
    or_loop-print (or_then a os) v rest (suc f) h b =
        rw
          (
            append_assoc,
            parse_and-print a (print_ors os ++ rest) f (omega lengths) (binding-ors os rest b),
            or_loop-print os (bool (is_truthy v || is_truthy (mean_and auth vars a))) rest f
                (omega lengths) b,
          )
          (ap (λ w. some (w, rest))
            (or_step os v (mean_and auth vars a) (some_true auth vars os) (some_true-no_or os)))

    parse_and-print :
        (a : And) (rest : List Tok) (f : ℕ)
        → 6 * length (print_and a) + 5 ≤ f
        → binding rest < 2
        → parse_and auth vars f (print_and a ++ rest) ≡ some (mean_and auth vars a, rest)
    parse_and-print a rest zero h b = absurd (omega arith)
    parse_and-print (and_of c cs) rest (suc f) h b =
        rw
          (
            append_assoc,
            parse_cmp-print c (print_ands cs ++ rest) f (omega lengths) (binding-ands cs rest b),
          )
          (and_loop-print cs (mean_cmp auth vars c) rest f (omega lengths) b)

    and_loop-print :
        (cs : Ands) (v : Value) (rest : List Tok) (f : ℕ)
        → 6 * length (print_ands cs) + 1 ≤ f
        → binding rest < 2
        → and_loop auth vars f v (print_ands cs ++ rest)
          ≡ some (and_value v cs (all_true auth vars cs), rest)
    and_loop-print cs v rest zero h b = absurd (omega arith)
    and_loop-print no_and v rest (suc f) h b = and_loop_stop (suc f) v rest (omega arith) b
    and_loop-print (and_then c cs) v rest (suc f) h b =
        rw
          (
            append_assoc,
            parse_cmp-print c (print_ands cs ++ rest) f (omega lengths) (binding-ands cs rest b),
            and_loop-print cs (bool (is_truthy v && is_truthy (mean_cmp auth vars c))) rest f
                (omega lengths) b,
          )
          (ap (λ w. some (w, rest))
            (and_step cs v (mean_cmp auth vars c) (all_true auth vars cs) (all_true-no_and cs)))

    parse_cmp-print :
        (c : Cmp) (rest : List Tok) (f : ℕ)
        → 6 * length (print_cmp c) + 4 ≤ f
        → binding rest < 3
        → parse_cmp auth vars f (print_cmp c ++ rest) ≡ some (mean_cmp auth vars c, rest)
    parse_cmp-print c rest zero h b = absurd (omega arith)
    parse_cmp-print (single u) rest (suc f) h b =
        rw (parse_unary-print u rest f (omega lengths) (omega arith))
          (cmp_tail_stop f (mean_unary auth vars u) rest (omega arith) b)
    parse_cmp-print (equal op u w) rest (suc zero) h b = absurd (omega arith)
    parse_cmp-print (equal op u w) rest (suc (suc f)) h b = rw (
      append_assoc,
      parse_unary-print u (eq op ∷ (print_unary w ++ rest)) (suc f) (omega lengths) (omega arith),
      parse_unary-print w rest f (omega lengths) (omega arith),
    )
    parse_cmp-print (differ op u w) rest (suc zero) h b = absurd (omega arith)
    parse_cmp-print (differ op u w) rest (suc (suc f)) h b = rw (
      append_assoc,
      parse_unary-print u (neq op ∷ (print_unary w ++ rest)) (suc f) (omega lengths) (omega arith),
      parse_unary-print w rest f (omega lengths) (omega arith),
    )

    parse_unary-print :
        (u : Unary) (rest : List Tok) (f : ℕ)
        → 6 * length (print_unary u) + 3 ≤ f
        → binding rest < 4
        → parse_unary auth vars f (print_unary u ++ rest) ≡ some (mean_unary auth vars u, rest)
    parse_unary-print u rest zero h b = absurd (omega arith)
    parse_unary-print (bang u) rest (suc f) h b =
        rw (parse_unary-print u rest f (omega lengths) (omega arith))
    parse_unary-print (prim p) rest (suc f) h b = parse_primary-unary p rest f (omega lengths) b

    parse_primary-unary :
        (p : Primary) (rest : List Tok) (f : ℕ)
        → 6 * length (print_primary p) + 2 ≤ f
        → binding rest < 4
        → parse_unary auth vars (suc f) (print_primary p ++ rest)
          ≡ some (mean_primary auth vars p, rest)
    parse_primary-unary p rest zero h b = absurd (omega arith)
    parse_primary-unary (paren e) rest (suc f) h b =
        rw (append_assoc, parse_or-print e (rp ∷ rest) f (omega lengths) (omega arith))
    parse_primary-unary (access x fields) rest (suc f) h b = rw (collect-dotted fields rest b)
    parse_primary-unary (literal s) rest (suc f) h b = refl

  -- On the tokens of an expression of the grammar, with what cannot continue it behind them, the
  -- evaluator computes the expression's meaning and stops right behind it, from the fuel that it is
  -- given for those tokens on.
  pub parse_or_correct :
      (e : Or) (rest : List Tok) (f : ℕ)
      → fuel_for (print_or e) ≤ f
      → binding rest < 1
      → parse_or auth vars f (print_or e ++ rest) ≡ some (mean_or auth vars e, rest)
  parse_or_correct e rest f h b = parse_or-print e rest f h b
