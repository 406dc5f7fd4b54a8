-- ===== src/Rules/Tests.antt =====
-- Runs of the rules engine, most of them those of internal/rules/rules_test.go.
use firego.Base.{
  ℕ, inl, inr, ◌≤◌, ◌≡◌, ◌≢◌, ◌↔◌, refl, true, false, ◌&&◌, some, List, [], ◌∷◌, ◌++◌, codes,
  length, Dict, Bytes, same, has_prefix, arith,
}
use firego.Json.{Json, null, str, obj, end, field, absent, written}
use firego.Paths.{split_path, path_of}
use firego.Rules.Lexer.{Tok, ident, dot, quoted, eq, and, lp, rp, is_letter, is_ident_part}
use firego.Rules.Eval.{AuthCtx, Value, is_truthy, parse_or, fuel_for, eval_expr}
use firego.Rules.Total.{parse_or_total}
use firego.Rules.Grammar.{
  Or, or_of, and_of, equal, prim, access, literal, no_and, no_or, print_or, mean_or, dotted,
}
use firego.Rules.Spelling.{NamePart, Spells, nothing, blank, word, not_part}
use firego.Rules.Meaning.{eval_expr-text}
use firego.Rules.Check.{RuleSet, check, new, update, updated}
use firego.Rules.Access.{Grants, check_iff}
use firego.Rules.Persist.{new-update}
use firego.Rules.Policies.{own_tree, check-own}

abbrev alice : AuthCtx
alice = record { uid = codes "abc123"; email = codes "abc@x.com"; authed = true }

abbrev anon : AuthCtx
anon = record { uid = []; email = []; authed = false }

abbrev vars : Dict Bytes
vars = (codes "$uid", codes "abc123") ∷ []

expression_eval :
    (eval_expr (codes "auth != null") alice vars ≡ true)
    × (eval_expr (codes "auth.uid === $uid") alice vars ≡ true)
    × (eval_expr (codes "auth.uid === 'other'") alice vars ≡ false)
    × (eval_expr (codes "auth != null && auth.uid === $uid") alice vars ≡ true)
    × (eval_expr (codes "!(auth != null)") alice vars ≡ false)
    × (eval_expr (codes "auth == null") anon [] ≡ true)
unfolding eval_expr same has_prefix
expression_eval = (refl, refl, refl, refl, refl, refl)

-- Text behind the expression is ignored.
abbrev other_text : Bytes
other_text = codes "auth.uid=== 'other' )"

abbrev other_uid : Or
other_uid =
    or_of
      (and_of
        (equal (codes "===") (prim (access (codes "auth") (codes "uid" ∷ [])))
          (prim (literal (codes "other"))))
        no_and)
      no_or

other_text-Spells : Spells (print_or other_uid ++ rp ∷ []) other_text
unfolding print_or dotted is_letter is_ident_part
other_text-Spells =
    let l : (c : ℕ) → is_letter c ≡ true → NamePart c = λ c e. inl (inr (inr e)) in
    word (ident (codes "auth")) (codes "auth") _
      ((inr (inr refl), (l _ refl, (l _ refl, (l _ refl, tt)))), refl) (not_part b'.' refl)
      (word dot (codes ".") _ refl tt (
        word (ident (codes "uid")) (codes "uid") _
          ((inr (inr refl), (l _ refl, (l _ refl, tt))), refl) (not_part b'=' refl)
          (word (eq (codes "===")) (codes "===") _ (inr refl, refl) (omega arith)
            (blank b' ' _ (inl refl) (
              word (quoted (codes "other")) (codes "'other'") _ (inr (omega arith, refl)) tt
                (blank b' ' _ (inl refl) (word rp (codes ")") [] refl tt nothing)))))))

eval_expr-text_example : eval_expr other_text alice vars ≡ is_truthy (mean_or alice vars other_uid)
eval_expr-text_example =
    eval_expr-text other_uid (rp ∷ []) other_text alice vars other_text-Spells (omega arith)

parse_or_total_example :
    (v : Value) × (rest : List Tok) × (parse_or alice vars
        (fuel_for (lp ∷ lp ∷ and ∷ []))
        (lp ∷ lp ∷ and ∷ [])
      ≡ some (v, rest))
    × (length rest ≤ 3)
parse_or_total_example = parse_or_total alice vars (lp ∷ lp ∷ and ∷ [])

abbrev own_rules : RuleSet
own_rules = record { root = some own_tree; file = absent }

check_iff_example :
    (check own_rules (codes "/users/abc123/name") (codes "read") alice ≡ true)
    ↔ Grants (codes "read") alice own_tree [] (split_path (codes "/users/abc123/name"))
check_iff_example =
    check_iff (codes "read") alice own_rules own_tree (codes "/users/abc123/name") refl

check-own_example :
    check own_rules
      (path_of (codes "users" ∷ codes "bob" ∷ codes "name" ∷ []))
      (codes "write")
      alice
    ≡ (true && same (codes "abc123") (codes "bob"))
check-own_example =
    check-own (codes "write") alice own_rules (codes "bob") (codes "name" ∷ []) refl (omega arith)
      (cc) (omega arith)

abbrev public_rules : Json
public_rules =
    obj (field (codes "rules") (obj (field (codes ".read") (str (codes "true")) end)) end)

accepted : (update public_rules written own_rules).0 ≡ updated
unfolding update same
accepted = refl

new-update_example :
    new (update public_rules written own_rules).1.file
    ≡ some (update public_rules written own_rules).1
new-update_example = new-update public_rules own_rules accepted

refused : (update null written own_rules).0 ≢ updated
unfolding update
refused = cc
