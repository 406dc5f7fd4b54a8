-- ===== src/Rules/Policies.antt =====
-- internal/rules/rules.go: what two sets of rules decide, for every user and path: the default
-- rules, and those of the package's tests that give each user a node.
use firego.Base.{
  ◌≡◌, ◌≢◌, refl, sym, subst, true, false, ◌&&◌, some, List, [], ◌∷◌, Bytes, codes, same, same_iff,
  Dict, lookup, insert, has_prefix, All, arith,
}
use firego.Json.{absent, get_field}
use firego.Paths.{split_path, split_path-path_of, path_of, IsSegment}
use firego.Rules.Eval.{AuthCtx, eval_expr}
use firego.Rules.Tree.{RuleNode, node, no_children, child}
use firego.Rules.Check.{RuleSet, check_root, check, walk, can_read, can_write, new}

eval_authed :
    (auth : AuthCtx) (vars : Dict Bytes) → eval_expr (codes "auth != null") auth vars ≡ auth.authed
unfolding eval_expr same
eval_authed auth vars = ground arith

walk_leaf :
    (op r w : Bytes) (auth : AuthCtx) (vars : Dict Bytes) (segs : List Bytes)
    → walk op auth (node r w no_children) vars segs ≡ false
unfolding walk
walk_leaf op r w auth vars [] = refl
walk_leaf op r w auth vars (seg ∷ segs) = refl

abbrev default_root : RuleNode
default_root = node (codes "auth != null") (codes "auth != null") no_children

default_access :
    (op : Bytes) (auth : AuthCtx) (segs : List Bytes)
    → check_root op auth (some default_root) segs ≡ auth.authed
unfolding walk
default_access op auth segs = ground (
  arith,
  walk_leaf op (codes "auth != null") (codes "auth != null") auth [] segs,
  eval_authed auth [],
)

-- Where there is no file, `New` makes rules that let a user read and write everywhere, and anybody
-- else nowhere.
pub new-default :
    (auth : AuthCtx) (path : Bytes)
    → (rs : RuleSet) × (new absent ≡ some rs)
      × (can_read rs path auth ≡ auth.authed)
      × (can_write rs path auth ≡ auth.authed)
unfolding new can_read can_write same get_field
new-default auth path = (
  record { root = some default_root; file = absent },
  refl,
  default_access (codes "read") auth (split_path path),
  default_access (codes "write") auth (split_path path),
)

abbrev own_rule : Bytes
own_rule = codes "auth.uid === $uid"

-- {"users": {"$uid": {".read": "auth.uid === $uid", ".write": "auth.uid === $uid"}}}
abbrev pub own_tree : RuleNode
own_tree = node [] [] (
    child (codes "users")
      (node [] [] (child (codes "$uid") (node own_rule own_rule no_children) no_children))
      no_children)

eval_own :
    (auth : AuthCtx) (x : Bytes)
    → eval_expr own_rule auth (insert (codes "$uid") x []) ≡ (auth.authed && same auth.uid x)
unfolding eval_expr insert same has_prefix
eval_own auth x = ground arith

check_root-own :
    (op : Bytes) (auth : AuthCtx) (x : Bytes) (more : List Bytes)
    → x ≢ codes "$uid"
    → check_root op auth (some own_tree) (codes "users" ∷ x ∷ more)
      ≡ (auth.authed && same auth.uid x)
unfolding walk same has_prefix
check_root-own op auth x more ne = ground (
  arith,
  same_iff (codes "$uid") x,
  eval_own auth x,
  walk_leaf op own_rule own_rule auth (insert (codes "$uid") x []) more,
)

-- Under these rules the node of a user, and all below it, is open to that user alone, whatever the
-- operation: the path segment is compared with the user's own id. (A segment that is spelled like
-- the wildcard itself is left out: it is the wildcard's key.)
pub check-own :
    (op : Bytes) (auth : AuthCtx) (rs : RuleSet) (x : Bytes) (more : List Bytes)
    → rs.root ≡ some own_tree
    → IsSegment x
    → x ≢ codes "$uid"
    → All IsSegment more
    → check rs (path_of (codes "users" ∷ x ∷ more)) op auth ≡ (auth.authed && same auth.uid x)
unfolding check
check-own op auth rs x more e hx ne hm =
    rw (e, split_path-path_of (codes "users" ∷ x ∷ more) (omega arith, (hx, hm)))
      (check_root-own op auth x more ne)

eval_own_unbound : (auth : AuthCtx) → auth.authed ≡ false → eval_expr own_rule auth [] ≡ true
unfolding eval_expr same has_prefix lookup
eval_own_unbound auth anon =
    subst (λ d. eval_expr own_rule (record auth { authed = d }) [] ≡ true) (sym anon) refl

check_root-own_wildcard :
    (op : Bytes) (auth : AuthCtx) (more : List Bytes)
    → auth.authed ≡ false
    → check_root op auth (some own_tree) (codes "users" ∷ codes "$uid" ∷ more) ≡ true
unfolding walk same has_prefix
check_root-own_wildcard op auth more anon = ground (arith, eval_own_unbound auth anon)

-- The segment that is spelled like the wildcard binds nothing, so the rule compares two nulls.
pub check-own_wildcard :
    (op : Bytes) (auth : AuthCtx) (rs : RuleSet) (more : List Bytes)
    → rs.root ≡ some own_tree
    → auth.authed ≡ false
    → All IsSegment more
    → check rs (path_of (codes "users" ∷ codes "$uid" ∷ more)) op auth ≡ true
unfolding check
check-own_wildcard op auth rs more e anon hm =
    rw
      (e, split_path-path_of (codes "users" ∷ codes "$uid" ∷ more) (omega arith, (omega arith, hm)))
      (check_root-own_wildcard op auth more anon)
