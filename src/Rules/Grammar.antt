-- ===== src/Rules/Grammar.antt =====
-- internal/rules/rules.go: the expression grammar that the package's comment states, as trees with
-- a meaning of their own, and the tokens of a tree.
use firego.Base.{Bool, false, not, ◌||◌, ◌&&◌, true, List, [], ◌∷◌, ◌++◌, Bytes, Dict}
use firego.Rules.Lexer.{Tok, ident, dot, quoted, eq, neq, and, or, not_, lp, rp}
use firego.Rules.Eval.{AuthCtx, Value, bool, str, is_truthy, val_equal, resolve}

mutual
  -- or → and ( "||" and )*
  pub data Or : Type 0 where
    or_of : And → Ors → Or

  pub data Ors : Type 0 where
    no_or : Ors
    or_then : And → Ors → Ors

  -- and → cmp ( "&&" cmp )*
  pub data And : Type 0 where
    and_of : Cmp → Ands → And

  pub data Ands : Type 0 where
    no_and : Ands
    and_then : Cmp → Ands → Ands

  -- cmp → unary ( ("==="|"!=="|"=="|"!=") unary )?, with the operator as it is spelled
  pub data Cmp : Type 0 where
    single : Unary → Cmp
    equal : Bytes → Unary → Unary → Cmp
    differ : Bytes → Unary → Unary → Cmp

  -- unary → "!" unary | primary
  pub data Unary : Type 0 where
    bang : Unary → Unary
    prim : Primary → Unary

  -- primary → "(" expr ")" | access | literal; `true`, `false` and `null` are names
  pub data Primary : Type 0 where
    paren : Or → Primary
    access : Bytes → List Bytes → Primary
    literal : Bytes → Primary

unfoldable pub dotted : List Bytes → List Tok
dotted [] = []
dotted (x ∷ xs) = dot ∷ ident x ∷ dotted xs

unfoldable mutual
  pub print_or : Or → List Tok
  print_or (or_of a os) = print_and a ++ print_ors os

  pub print_ors : Ors → List Tok
  print_ors no_or = []
  print_ors (or_then a os) = or ∷ (print_and a ++ print_ors os)

  pub print_and : And → List Tok
  print_and (and_of c cs) = print_cmp c ++ print_ands cs

  pub print_ands : Ands → List Tok
  print_ands no_and = []
  print_ands (and_then c cs) = and ∷ (print_cmp c ++ print_ands cs)

  pub print_cmp : Cmp → List Tok
  print_cmp (single u) = print_unary u
  print_cmp (equal op u w) = print_unary u ++ (eq op ∷ print_unary w)
  print_cmp (differ op u w) = print_unary u ++ (neq op ∷ print_unary w)

  pub print_unary : Unary → List Tok
  print_unary (bang u) = not_ ∷ print_unary u
  print_unary (prim p) = print_primary p

  pub print_primary : Primary → List Tok
  print_primary (paren e) = lp ∷ (print_or e ++ rp ∷ [])
  print_primary (access x fields) = ident x ∷ dotted fields
  print_primary (literal s) = quoted s ∷ []

-- A first operand with a chain of further ones: alone, it is passed on as it is.
abbrev pub or_value : Value → Ors → Bool → Value
or_value v no_or others = v
or_value v (or_then a os) others = bool (is_truthy v || others)

abbrev pub and_value : Value → Ands → Bool → Value
and_value v no_and others = v
and_value v (and_then c cs) others = bool (is_truthy v && others)

module _ (auth : AuthCtx) (vars : Dict Bytes) where
  unfoldable mutual
    pub mean_or : Or → Value
    mean_or (or_of a os) = or_value (mean_and a) os (some_true os)

    -- Some operand is truthy.
    pub some_true : Ors → Bool
    some_true no_or = false
    some_true (or_then a os) = is_truthy (mean_and a) || some_true os

    pub mean_and : And → Value
    mean_and (and_of c cs) = and_value (mean_cmp c) cs (all_true cs)

    -- Each operand is truthy.
    pub all_true : Ands → Bool
    all_true no_and = true
    all_true (and_then c cs) = is_truthy (mean_cmp c) && all_true cs

    pub mean_cmp : Cmp → Value
    mean_cmp (single u) = mean_unary u
    mean_cmp (equal op u w) = bool (val_equal (mean_unary u) (mean_unary w))
    mean_cmp (differ op u w) = bool (not (val_equal (mean_unary u) (mean_unary w)))

    pub mean_unary : Unary → Value
    mean_unary (bang u) = bool (not (is_truthy (mean_unary u)))
    mean_unary (prim p) = mean_primary p

    pub mean_primary : Primary → Value
    mean_primary (paren e) = mean_or e
    mean_primary (access x fields) = resolve auth vars x fields
    mean_primary (literal s) = str s
