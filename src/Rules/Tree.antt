-- ===== src/Rules/Tree.antt =====
-- internal/rules/rules.go: the tree of rules, and its JSON form.
use firego.Base.{
  Option, none, some, [], Bytes, codes, same, is_empty, has_prefix, if◌then◌else◌, ◌>>=◌,
}
use firego.Json.{Json, Fields, null, str, obj, end, field, get_field}

mutual
  -- `RuleNode`: its rules for reading and writing (empty if it has none), and its children.
  pub data RuleNode : Type 0 where
    node : Bytes → Bytes → Children → RuleNode

  -- map[string]*RuleNode, in the order in which a `range` visits it.
  pub data Children : Type 0 where
    no_children : Children
    child : Bytes → RuleNode → Children → Children

abbrev pub children : RuleNode → Children
children (node r w cs) = cs

-- node.Children[seg]
unfoldable pub find_child : Bytes → Children → Option RuleNode
find_child k no_children = none
find_child k (child j n cs) = if same j k then some n else find_child k cs

-- The first key of a `range` over the children that starts with `$`.
unfoldable pub first_wildcard : Children → Option (Bytes × RuleNode)
first_wildcard no_children = none
first_wildcard (child j n cs) = if has_prefix j (codes "$") then some (j, n) else first_wildcard cs

-- `json.Unmarshal(v, &n.Read)`: a null leaves the string as it is.
abbrev pub set_read : Json → RuleNode → Option RuleNode
set_read (str s) (node r w cs) = some (node s w cs)
set_read null n = some n
set_read _ n = none

abbrev pub set_write : Json → RuleNode → Option RuleNode
set_write (str s) (node r w cs) = some (node r s cs)
set_write null n = some n
set_write _ n = none

abbrev pub add_child : Bytes → RuleNode → RuleNode → RuleNode
add_child k c (node r w cs) = node r w (child k c cs)

-- `UnmarshalJSON`; `none` is an error. The keys of an object differ, so the order of the loop does
-- not show.
unfoldable mutual
  pub decode_node : Json → Option RuleNode
  decode_node (obj fs) = decode_fields fs
  decode_node null = some (node [] [] no_children)
  decode_node _ = none

  pub decode_fields : Fields → Option RuleNode
  decode_fields end = some (node [] [] no_children)
  decode_fields (field k v fs) =
      if same k (codes ".read")
      then (do n ← decode_fields fs; set_read v n)
      else if same k (codes ".write")
      then (do n ← decode_fields fs; set_write v n)
      else (do n ← decode_fields fs; c ← decode_node v; some (add_child k c n))

abbrev pub rule_field : Bytes → Bytes → Fields → Fields
rule_field k rule fs = if is_empty rule then fs else field k (str rule) fs

-- `MarshalJSON`
unfoldable mutual
  pub encode_node : RuleNode → Json
  encode_node (node r w cs) =
      obj (rule_field (codes ".read") r (rule_field (codes ".write") w (encode_children cs)))

  pub encode_children : Children → Fields
  encode_children no_children = end
  encode_children (child k n cs) = field k (encode_node n) (encode_children cs)

-- The field `Rules` of `fileWrapper`, a nil pointer for a null.
abbrev pub rules_of : Option Json → Option (Option RuleNode)
rules_of none = some none
rules_of (some null) = some none
rules_of (some v) = do n ← decode_node v; some (some n)

-- What decodes into `fileWrapper`: the rules, if the file has any.
unfoldable pub decode_file : Json → Option (Option RuleNode)
unfolding decode_node get_field
decode_file null = some none
decode_file (obj fs) = rules_of (get_field (codes "rules") fs)
decode_file _ = none

unfoldable pub encode_file : Option RuleNode → Json
unfolding encode_node
encode_file none = obj (field (codes "rules") null end)
encode_file (some n) = obj (field (codes "rules") (encode_node n) end)
