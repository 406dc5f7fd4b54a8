-- ===== src/Rules/Meaning.antt =====
-- internal/rules/rules.go: `evalExpr` on the text of an expression.
use firego.Base.{
  ◌≤◌, ◌<◌, ◌≡◌, refl, true, false, none, List, [], ◌∷◌, ◌++◌, append_assoc, Bytes, codes, same,
  has_prefix, Dict, lookup, length-append, All, inl, inr, arith,
}
use firego.Rules.Lexer.{is_letter, is_ident_part, Tok, eof, ident, dot, eq}
use firego.Rules.Eval.{AuthCtx, is_truthy, val_equal, resolve, fuel_for, eval_expr}
use firego.Rules.Grammar.{
  Or, or_of, no_or, and_of, no_and, equal, prim, access, print_or, dotted, mean_or,
}
use firego.Rules.Correct.{binding, parse_or_correct}
use firego.Rules.Spelling.{NamePart, not_part, Spells, nothing, blank, word, tokenize-Spells}

binding-append : (rest : List Tok) → binding rest < 1 → binding (rest ++ eof ∷ []) < 1
binding-append [] h = omega arith
binding-append (dot ∷ ts) h = absurd (omega arith)
binding-append (t ∷ ts) h = h

fuel_for-append : (xs ys : List Tok) → fuel_for xs ≤ fuel_for (xs ++ ys)
fuel_for-append xs ys = omega (arith, length-append xs ys)

-- A text that spells an expression of the grammar, in either quotes and either spelling of each
-- comparison and with any blanks or none between the tokens, is evaluated to the truth of the
-- expression's meaning, whatever tokens that cannot continue it stand behind it.
pub eval_expr-text :
    (e : Or) (rest : List Tok) (text : Bytes) (auth : AuthCtx) (vars : Dict Bytes)
    → Spells (print_or e ++ rest) text
    → binding rest < 1
    → eval_expr text auth vars ≡ is_truthy (mean_or auth vars e)
unfolding eval_expr
eval_expr-text e rest text auth vars h b = rw (
  tokenize-Spells h,
  append_assoc (print_or e) rest (eof ∷ []),
  parse_or_correct auth vars e (rest ++ eof ∷ []) _
      (fuel_for-append (print_or e) (rest ++ eof ∷ [])) (binding-append rest b),
)

-- `auth.uid === $x`
abbrev own_uid : Bytes → Or
own_uid x =
    or_of
      (and_of
        (equal (codes "===") (prim (access (codes "auth") (codes "uid" ∷ [])))
          (prim (access (36 ∷ x) [])))
        no_and)
      no_or

own_uid_meaning :
    (x : Bytes) (auth : AuthCtx) (vars : Dict Bytes)
    → auth.authed ≡ false
    → lookup (36 ∷ x) vars ≡ none
    → is_truthy (mean_or auth vars (own_uid x)) ≡ true
unfolding mean_or is_truthy val_equal resolve same has_prefix
own_uid_meaning x auth vars anon unbound = rw (anon, unbound)

-- `auth.uid === $x`, as the documentation spells it.
own_uid-Spells :
    (x : Bytes)
    → All NamePart x
    → Spells (print_or (own_uid x) ++ []) (codes "auth.uid === " ++ (36 ∷ x ++ []))
unfolding print_or dotted is_letter is_ident_part
own_uid-Spells x name =
    word (ident (codes "auth")) (codes "auth") _
      (
        (
          inr (inr refl),
          (inl (inr (inr refl)), (inl (inr (inr refl)), (inl (inr (inr refl)), tt))),
        ),
        refl,
      )
      (not_part b'.' refl)
      (word dot (codes ".") _ refl tt (
        word (ident (codes "uid")) (codes "uid") _
          ((inr (inr refl), (inl (inr (inr refl)), (inl (inr (inr refl)), tt))), refl)
          (not_part b' ' refl)
          (blank b' ' _ (inl refl) (
            word (eq (codes "===")) (codes "===") _ (inr refl, refl) (omega arith)
              (blank b' ' _ (inl refl)
                (word (ident (36 ∷ x)) (36 ∷ x) [] ((inl refl, name), refl) tt nothing))))))

-- With no user, the test `auth.uid === $x` of a variable that the path does not bind holds: both
-- sides are null.
pub own_uid-unbound :
    (x : Bytes) (auth : AuthCtx) (vars : Dict Bytes)
    → All NamePart x
    → auth.authed ≡ false
    → lookup (36 ∷ x) vars ≡ none
    → eval_expr (codes "auth.uid === " ++ (36 ∷ x ++ [])) auth vars ≡ true
own_uid-unbound x auth vars name anon unbound =
    rw (← own_uid_meaning x auth vars anon unbound)
      (eval_expr-text (own_uid x) [] _ auth vars (own_uid-Spells x name) (omega arith))
