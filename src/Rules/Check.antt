-- ===== src/Rules/Check.antt =====
-- internal/rules/rules.go: `RuleSet` and its methods. A file holds the JSON value of its text.
use firego.Base.{
  Bool, false, not, ◌&&◌, ◌||◌, Option, none, some, List, [], ◌∷◌, Bytes, codes, same, is_empty,
  Dict, insert, if◌then◌else◌, ◌>>=◌,
}
use firego.Json.{Json, str, obj, end, field, File, absent, holds, broken, Write, written, failed}
use firego.Paths.{split_path}
use firego.Rules.Eval.{AuthCtx, eval_expr}
use firego.Rules.Tree.{
  RuleNode, Children, node, no_children, children, find_child, first_wildcard, decode_file,
  encode_file,
}

-- `RuleSet`: the tree, and the file that keeps it.
pub record RuleSet : Type 0 where
  pub root : Option RuleNode
  pub file : File

-- `nodeRule`
unfoldable pub node_rule : RuleNode → Bytes → Bytes
node_rule (node r w cs) op = if same op (codes "read") then r else w

-- `expr := nodeRule(node, op); expr != "" && evalExpr(expr, auth, vars)`
unfoldable pub granted : Bytes → AuthCtx → RuleNode → Dict Bytes → Bool
unfolding node_rule
granted op auth n vars = not (is_empty (node_rule n op)) && eval_expr (node_rule n op) auth vars

-- The child for a segment and the variables with it: the literal child, or else a wildcard.
unfoldable pub descend : Bytes → Children → Dict Bytes → Option (RuleNode × Dict Bytes)
unfolding find_child first_wildcard
descend seg cs vars = elim (find_child seg cs) [
  | some c ↦ some (c, vars)
  | none ↦ elim (first_wildcard cs) [
    | some (key, wc) ↦ some (wc, insert key seg vars)
    | none ↦ none
  ]
]

-- The loop over the segments.
unfoldable pub walk : Bytes → AuthCtx → RuleNode → Dict Bytes → List Bytes → Bool
unfolding descend granted
walk op auth n vars [] = false
walk op auth n vars (seg ∷ segs) = elim (descend seg (children n) vars) [
  | none ↦ false
  | some (c, vars') ↦ granted op auth c vars' || walk op auth c vars' segs
]

abbrev pub check_root : Bytes → AuthCtx → Option RuleNode → List Bytes → Bool
check_root op auth none segs = false
check_root op auth (some n) segs = granted op auth n [] || walk op auth n [] segs

-- `check`, `CanRead` and `CanWrite`
unfoldable pub check : RuleSet → Bytes → Bytes → AuthCtx → Bool
unfolding walk split_path
check rs path op auth = check_root op auth rs.root (split_path path)

unfoldable pub can_read : RuleSet → Bytes → AuthCtx → Bool
unfolding check
can_read rs path auth = check rs path (codes "read") auth

unfoldable pub can_write : RuleSet → Bytes → AuthCtx → Bool
unfolding check
can_write rs path auth = check rs path (codes "write") auth

-- `defaultRulesJSON`
abbrev pub default_rules : Json
default_rules = obj (
    field (codes "rules")
      (obj (
        field (codes ".read") (str (codes "auth != null"))
          (field (codes ".write") (str (codes "auth != null")) end)))
      end)

abbrev pub or_empty : Option RuleNode → RuleNode
or_empty none = node [] [] no_children
or_empty (some n) = n

-- `parseJSON` on a value, with the file that the set keeps; `none` is an error.
unfoldable pub parse_json : File → Json → Option RuleSet
unfolding decode_file
parse_json file j = do r ← decode_file j; some (record { root = some (or_empty r); file = file })

-- `New`. A missing file gives the default rules, and is not written.
unfoldable pub new : File → Option RuleSet
unfolding parse_json
new absent = parse_json absent default_rules
new (holds j) = parse_json (holds j) j
new broken = none

-- `RawJSON`, as the value that the text stands for.
unfoldable pub raw_json : RuleSet → Json
unfolding encode_file
raw_json rs = encode_file rs.root

-- How `Update` ends.
pub data Updated : Type 0 where
  updated : Updated
  bad_rules : Updated
  missing_rules : Updated
  not_written : Updated

-- `Update`, on the value of its text, for the outcome of the write. A write that fails leaves what
-- the disk says in the file.
unfoldable pub update : Json → Write → RuleSet → Updated × RuleSet
unfolding decode_file encode_file
update j write rs = elim (decode_file j) [
  | none ↦ (bad_rules, rs)
  | some none ↦ (missing_rules, rs)
  | some (some n) ↦ elim write [
    | written ↦ (updated, record { root = some n; file = holds (encode_file (some n)) })
    | failed left ↦ (not_written, record rs { file = left })
  ]
]
