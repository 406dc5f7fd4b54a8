-- ===== src/Rules/Persist.antt =====
-- internal/rules/rules.go: rules that are stored and loaded again.
use firego.Base.{
  ◌≡◌, ◌≢◌, refl, subst, false, Option, none, some, [], ◌∷◌, Bytes, codes, same, same_iff, same_ne,
  Bool-cases, Option-cases, inl, inr, ◌>>=◌, arith,
}
use firego.Json.{Json, Fields, null, str, obj, end, field, get_field, holds, Write, written}
use firego.Rules.Tree.{
  RuleNode, Children, node, no_children, child, set_read, set_write, add_child, decode_node,
  decode_fields, rules_of, rule_field, encode_node, encode_children, decode_file, encode_file,
}
use firego.Rules.Check.{RuleSet, new, parse_json, updated, bad_rules, missing_rules, update}

-- No child has the key of a rule.
abbrev mutual
  pub IsKeyed : RuleNode → Type 0
  IsKeyed (node r w cs) = AreKeyed cs

  pub AreKeyed : Children → Type 0
  AreKeyed no_children = Unit
  AreKeyed (child k n cs) = (k ≢ codes ".read") × (k ≢ codes ".write") × IsKeyed n × AreKeyed cs

decode-rules :
    (r w : Bytes) (cs : Children) (fs : Fields)
    → decode_fields fs ≡ some (node [] [] cs)
    → decode_fields (rule_field (codes ".read") r (rule_field (codes ".write") w fs))
      ≡ some (node r w cs)
unfolding decode_fields same
decode-rules [] [] cs fs h = h
decode-rules [] (b ∷ w) cs fs h = rw h
decode-rules (a ∷ r) [] cs fs h = rw h
decode-rules (a ∷ r) (b ∷ w) cs fs h = rw h

mutual
  unfolding decode_node encode_node

  decode-encode : (n : RuleNode) → IsKeyed n → decode_node (encode_node n) ≡ some n
  decode-encode (node r w cs) h = decode-rules r w cs (encode_children cs) (decode-children cs h)

  decode-children :
      (cs : Children) → AreKeyed cs → decode_fields (encode_children cs) ≡ some (node [] [] cs)
  decode-children no_children h = refl
  decode-children (child k n cs) h = rw (
    same_ne k (codes ".read") h.0,
    same_ne k (codes ".write") h.1,
    decode-children cs h.3,
    decode-encode n h.2,
  )

-- The decoded node, if there is one, is keyed.
abbrev GivesKeyed : Option RuleNode → Type 0
GivesKeyed none = Unit
GivesKeyed (some n) = IsKeyed n

set_read-GivesKeyed :
    (v : Json) (o : Option RuleNode) → GivesKeyed o → GivesKeyed (o >>= set_read v)
set_read-GivesKeyed v none h = tt
set_read-GivesKeyed null (some n) h = h
set_read-GivesKeyed (str s) (some (node r w cs)) h = h
set_read-GivesKeyed _ (some n) h = tt

set_write-GivesKeyed :
    (v : Json) (o : Option RuleNode) → GivesKeyed o → GivesKeyed (o >>= set_write v)
set_write-GivesKeyed v none h = tt
set_write-GivesKeyed null (some n) h = h
set_write-GivesKeyed (str s) (some (node r w cs)) h = h
set_write-GivesKeyed _ (some n) h = tt

add_child-GivesKeyed :
    (k : Bytes) (o c : Option RuleNode)
    → k ≢ codes ".read"
    → k ≢ codes ".write"
    → GivesKeyed o
    → GivesKeyed c
    → GivesKeyed (o >>= λ n. c >>= λ m. some (add_child k m n))
add_child-GivesKeyed k none c nr nw h g = tt
add_child-GivesKeyed k (some n) none nr nw h g = tt
add_child-GivesKeyed k (some (node r w cs)) (some m) nr nw h g = (nr, nw, g, h)

ne_of_same : (k j : Bytes) → same k j ≡ false → k ≢ j
ne_of_same k j h e = cc (h, (same_iff k j).1 e)

mutual
  unfolding decode_node

  decode-GivesKeyed : (j : Json) → GivesKeyed (decode_node j)
  decode-GivesKeyed (obj fs) = decode_fields-GivesKeyed fs
  decode-GivesKeyed null = tt
  decode-GivesKeyed _ = tt

  decode_fields-GivesKeyed : (fs : Fields) → GivesKeyed (decode_fields fs)
  decode_fields-GivesKeyed end = tt
  decode_fields-GivesKeyed (field k v fs) = elim (Bool-cases (same k (codes ".read"))) [
    | inl r ↦ rw r (set_read-GivesKeyed v (decode_fields fs) (decode_fields-GivesKeyed fs))
    | inr r ↦ rw r (elim (Bool-cases (same k (codes ".write"))) [
      | inl w ↦ rw w (set_write-GivesKeyed v (decode_fields fs) (decode_fields-GivesKeyed fs))
      | inr w ↦ rw w (
          add_child-GivesKeyed k (decode_fields fs) (decode_node v) (ne_of_same k _ r)
            (ne_of_same k _ w) (decode_fields-GivesKeyed fs) (decode-GivesKeyed v))
    ])
  ]

IsKeyed-of_GivesKeyed : (o : Option RuleNode) (n : RuleNode) → GivesKeyed o → o ≡ some n → IsKeyed n
IsKeyed-of_GivesKeyed none n h e = cc
IsKeyed-of_GivesKeyed (some m) n h e = subst GivesKeyed e h

-- What a tree is stored as is read back as that tree, if the tree was read from JSON.
pub decode-encode-decode :
    (j : Json) (n : RuleNode) → decode_node j ≡ some n → decode_node (encode_node n) ≡ some n
decode-encode-decode j n e =
    decode-encode n (IsKeyed-of_GivesKeyed (decode_node j) n (decode-GivesKeyed j) e)

some_node :
    (o : Option RuleNode) (n : RuleNode) → (o >>= λ m. some (some m)) ≡ some (some n) → o ≡ some n
some_node none n e = cc
some_node (some m) n e = cc

rules_of-IsKeyed : (o : Option Json) (n : RuleNode) → rules_of o ≡ some (some n) → IsKeyed n
rules_of-IsKeyed none n e = cc
rules_of-IsKeyed (some null) n e = cc
rules_of-IsKeyed (some v) n e =
    IsKeyed-of_GivesKeyed (decode_node v) n (decode-GivesKeyed v) (some_node (decode_node v) n e)

decode_file-IsKeyed : (j : Json) (n : RuleNode) → decode_file j ≡ some (some n) → IsKeyed n
unfolding decode_file
decode_file-IsKeyed (obj fs) n e = rules_of-IsKeyed (get_field (codes "rules") fs) n e
decode_file-IsKeyed null n e = cc
decode_file-IsKeyed _ n e = cc

decode_file-node :
    (j : Json) (n : RuleNode)
    → decode_file j ≡ some (some n)
    → decode_file (encode_file (some n)) ≡ some (some n)
unfolding decode_file encode_file same
decode_file-node j (node r w cs) e =
    rw (decode-encode (node r w cs) (decode_file-IsKeyed j (node r w cs) e))

update_refused :
    (j : Json) (w : Write) (rs : RuleSet) → decode_file j ≡ none → update j w rs ≡ (bad_rules, rs)
unfolding update
update_refused j w rs e = rw (e, update)

update_missing :
    (j : Json) (w : Write) (rs : RuleSet)
    → decode_file j ≡ some none
    → update j w rs ≡ (missing_rules, rs)
unfolding update
update_missing j w rs e = rw (e, update)

update_accepted :
    (j : Json) (rs : RuleSet) (n : RuleNode)
    → decode_file j ≡ some (some n)
    → update j written rs ≡ (updated, record { root = some n; file = holds (encode_file (some n)) })
unfolding update
update_accepted j rs n e = rw (e, update)

new-encode :
    (n : RuleNode) (f : Json)
    → decode_file f ≡ some (some n)
    → new (holds f) ≡ some (record { root = some n; file = holds f })
unfolding new
new-encode n f e = rw (e, parse_json)

-- An update that is accepted and written is what a later `New` loads.
pub new-update :
    (j : Json) (rs : RuleSet)
    → (update j written rs).0 ≡ updated
    → new (update j written rs).1.file ≡ some (update j written rs).1
new-update j rs h = elim (Option-cases (decode_file j)) [
  | inl e ↦ cc (update_refused j written rs e, h)
  | inr (none, e) ↦ cc (update_missing j written rs e, h)
  | inr (some n, e) ↦
      rw (update_accepted j rs n e) (new-encode n (encode_file (some n)) (decode_file-node j n e))
]

-- An update that ends otherwise leaves the rules in force as they were.
pub update-root :
    (j : Json) (w : Write) (rs : RuleSet)
    → (update j w rs).0 ≢ updated
    → (update j w rs).1.root ≡ rs.root
unfolding update
update-root j w rs h = ground arith
