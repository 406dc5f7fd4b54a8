-- ===== src/Rules/Eval.antt =====
-- internal/rules/rules.go: `value` and the evaluator `evalParser`. Its cursor `pos` is the list of
-- the tokens from `pos` on. Each call costs a unit of fuel, and `none` means that it ran out:
-- Rules/Total.antt shows that `eval_expr` gives enough.
use firego.Base.{
  ℕ, zero, suc, ◌+◌, ◌*◌, Bool, true, false, not, ◌&&◌, ◌||◌, Option, none, some, List, [], ◌∷◌,
  Bytes, codes, same, is_empty, has_prefix, Dict, lookup, if◌then◌else◌, length, ◌>>=◌,
}
use firego.Rules.Lexer.{Tok, eof, ident, dot, quoted, eq, neq, and, or, not_, lp, rp, tokenize}

pub record AuthCtx : Type 0 where
  pub uid : Bytes
  pub email : Bytes
  pub authed : Bool

-- `value`: the fields `b` and `s` belong to the kinds 1 and 2.
pub data Value : Type 0 where
  null : Value
  bool : Bool → Value
  str : Bytes → Value

unfoldable pub is_truthy : Value → Bool
is_truthy null = false
is_truthy (bool b) = b
is_truthy (str s) = not (is_empty s)

abbrev pub same_bool : Bool → Bool → Bool
same_bool true b = b
same_bool false b = not b

unfoldable pub val_equal : Value → Value → Bool
val_equal null null = true
val_equal (bool a) (bool b) = same_bool a b
val_equal (str a) (str b) = same a b
val_equal _ _ = false

-- The field of `auth` that chain[1] names.
abbrev pub auth_field : AuthCtx → List Bytes → Value
auth_field auth [] = str (codes "__auth__")
auth_field auth (field ∷ _) =
    if same field (codes "uid")
    then str auth.uid
    else if same field (codes "email")
    then str auth.email
    else null

abbrev pub variable : Option Bytes → Value
variable none = null
variable (some v) = str v

-- `resolve`, for the chain `name ∷ fields`.
unfoldable pub resolve : AuthCtx → Dict Bytes → Bytes → List Bytes → Value
resolve auth vars name fields =
    if same name (codes "true")
    then bool true
    else if same name (codes "false")
    then bool false
    else if same name (codes "null")
    then null
    else if same name (codes "auth")
    then (if auth.authed then auth_field auth fields else null)
    else if has_prefix name (codes "$")
    then variable (lookup name vars)
    else null

-- The loop that collects `.name`; a dot with no name behind it is passed over.
unfoldable pub collect : List Tok → List Bytes × List Tok
collect [] = ([], [])
collect (dot ∷ ident x ∷ ts) = let (chain, rest) = collect ts in (x ∷ chain, rest)
collect (dot ∷ ts) = collect ts
collect ts = ([], ts)

-- `if p.peek().kind == tokRP { p.next() }`
abbrev pub skip_rp : List Tok → List Tok
skip_rp (rp ∷ ts) = ts
skip_rp ts = ts

-- `next`, which does not pass the end.
abbrev pub next : List Tok → List Tok
next [] = []
next (eof ∷ ts) = eof ∷ ts
next (t ∷ ts) = ts

abbrev pub Parser : Type 0
Parser = List Tok → Option (Value × List Tok)

module _ (auth : AuthCtx) (vars : Dict Bytes) where
  unfoldable mutual
    pub parse_or : ℕ → Parser
    parse_or zero ts = none
    parse_or (suc f) ts = do (v, rest) ← parse_and f ts; or_loop f v rest

    -- `for p.peek().kind == tokOr`
    pub or_loop : ℕ → Value → Parser
    or_loop zero v ts = none
    or_loop (suc f) v (or ∷ ts) = do
      (r, rest) ← parse_and f ts
      or_loop f (bool (is_truthy v || is_truthy r)) rest
    or_loop (suc f) v ts = some (v, ts)

    pub parse_and : ℕ → Parser
    parse_and zero ts = none
    parse_and (suc f) ts = do (v, rest) ← parse_cmp f ts; and_loop f v rest

    pub and_loop : ℕ → Value → Parser
    and_loop zero v ts = none
    and_loop (suc f) v (and ∷ ts) = do
      (r, rest) ← parse_cmp f ts
      and_loop f (bool (is_truthy v && is_truthy r)) rest
    and_loop (suc f) v ts = some (v, ts)

    pub parse_cmp : ℕ → Parser
    parse_cmp zero ts = none
    parse_cmp (suc f) ts = do (v, rest) ← parse_unary f ts; cmp_tail f v rest

    -- The optional comparison behind the first operand.
    pub cmp_tail : ℕ → Value → Parser
    cmp_tail zero v ts = none
    cmp_tail (suc f) v (eq _ ∷ ts) = do
      (r, rest) ← parse_unary f ts
      some (bool (val_equal v r), rest)
    cmp_tail (suc f) v (neq _ ∷ ts) = do
      (r, rest) ← parse_unary f ts
      some (bool (not (val_equal v r)), rest)
    cmp_tail (suc f) v ts = some (v, ts)

    pub parse_unary : ℕ → Parser
    parse_unary zero ts = none
    parse_unary (suc f) (not_ ∷ ts) = do
      (v, rest) ← parse_unary f ts
      some (bool (not (is_truthy v)), rest)
    parse_unary (suc f) ts = parse_primary f ts

    pub parse_primary : ℕ → Parser
    parse_primary zero ts = none
    parse_primary (suc f) (lp ∷ ts) = do (v, rest) ← parse_or f ts; some (v, skip_rp rest)
    parse_primary (suc f) (quoted s ∷ ts) = some (str s, ts)
    parse_primary (suc f) (ident x ∷ ts) =
        let (chain, rest) = collect ts in some (resolve auth vars x chain, rest)
    parse_primary (suc f) ts = some (null, next ts)

-- Fuel for any list of tokens: one token passes through at most six calls.
abbrev pub fuel_for : List Tok → ℕ
fuel_for ts = 6 * length ts + 6

abbrev pub truth : Option (Value × List Tok) → Bool
truth none = false
truth (some (v, rest)) = is_truthy v

unfoldable pub eval_expr : Bytes → AuthCtx → Dict Bytes → Bool
unfolding tokenize parse_or is_truthy val_equal resolve collect lookup
eval_expr expr auth vars = let ts = tokenize expr in truth (parse_or auth vars (fuel_for ts) ts)
