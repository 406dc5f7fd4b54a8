-- ===== src/Rules/Reach.antt =====
-- internal/rules/rules.go: the node that a segment leads to, and a rule that holds, as the package
-- describes them.
use firego.Base.{
  ◌≡◌, ◌≢◌, refl, subst, ap, Bool, true, false, not, ◌&&◌, ◌⊎◌, inl, inr, Bool-cases, Option-cases,
  none, some, some_inj, [], ◌∷◌, Bytes, codes, same, same_iff, same_refl, same_ne, is_empty,
  has_prefix, Dict, insert, arith,
}
use firego.Rules.Eval.{AuthCtx, eval_expr}
use firego.Rules.Tree.{RuleNode, Children, node, no_children, child, find_child, first_wildcard}
use firego.Rules.Check.{node_rule, granted, descend}

-- The first child under a key, and no child under it.
pub data ChildAt (key : Bytes) (c : RuleNode) : Children → Type 0 where
  first : {cs : Children} → ChildAt key c (child key c cs)
  later :
      {j : Bytes} {d : RuleNode} {cs : Children}
      → j ≢ key
      → ChildAt key c cs
      → ChildAt key c (child j d cs)

abbrev pub NoChild : Bytes → Children → Type 0
NoChild key no_children = Unit
NoChild key (child j d cs) = (j ≢ key) × NoChild key cs

-- A key that names a variable.
abbrev pub IsVariable : Bytes → Type 0
IsVariable [] = ⊥
IsVariable (c ∷ s) = c ≡ b'$'

-- The first child whose key names a variable.
pub data WildcardAt (key : Bytes) (c : RuleNode) : Children → Type 0 where
  first : {cs : Children} → IsVariable key → WildcardAt key c (child key c cs)
  later :
      {j : Bytes} {d : RuleNode} {cs : Children}
      → (IsVariable j → ⊥)
      → WildcardAt key c cs
      → WildcardAt key c (child j d cs)

-- The node below for a segment, with the variables that are bound there: the child of that name, and
-- only where (Allows-granted op auth _ _ t)here is none the first wildcard, whose variable the segment is bound to.
pub data Below (seg : Bytes) (cs : Children) (vars : Dict Bytes)
    : RuleNode → Dict Bytes → Type 0 where
  literal : {c : RuleNode} → ChildAt seg c cs → Below seg cs vars c vars
  wildcard :
      {key : Bytes} {c : RuleNode}
      → NoChild seg cs
      → WildcardAt key c cs
      → Below seg cs vars c (insert key seg vars)

-- The rule of a node for an operation is an expression that is true.
abbrev pub Allows : Bytes → AuthCtx → RuleNode → Dict Bytes → Type 0
Allows op auth (node r w cs) vars =
    ((op ≡ codes "read") × (r ≢ []) × (eval_expr r auth vars ≡ true))
    ⊎ ((op ≢ codes "read") × (w ≢ []) × (eval_expr w auth vars ≡ true))

ne_of_same : (x y : Bytes) → same x y ≡ false → x ≢ y
ne_of_same x y e q = cc (e, (same_iff x y).1 q)

find-ChildAt :
    {key : Bytes} {c : RuleNode} {cs : Children} → ChildAt key c cs → find_child key cs ≡ some c
unfolding find_child
find-ChildAt {key} first = rw (same_refl key)
find-ChildAt {key} (later {j} n h) = rw (same_ne j key n) (find-ChildAt h)

find-NoChild : (key : Bytes) (cs : Children) → NoChild key cs → find_child key cs ≡ none
unfolding find_child
find-NoChild key no_children h = refl
find-NoChild key (child j d cs) h = rw (same_ne j key h.0) (find-NoChild key cs h.1)

ChildAt-find :
    (key : Bytes) (c : RuleNode) (cs : Children) → find_child key cs ≡ some c → ChildAt key c cs
unfolding find_child
ChildAt-find key c no_children h = absurd cc
ChildAt-find key c (child j d cs) h = elim (Bool-cases (same j key)) [
  | inl e ↦
      let same_child : child key c cs ≡ child j d cs =
        let own : j ≡ key = (same_iff j key).0 e in
        let it : d ≡ c = some_inj.0 (rw e at h) in cc (own, it) in
      subst (ChildAt key c) same_child first
  | inr e ↦ later (ne_of_same j key e) (ChildAt-find key c cs (rw e at h))
]

NoChild-find : (key : Bytes) (cs : Children) → find_child key cs ≡ none → NoChild key cs
unfolding find_child
NoChild-find key no_children h = tt
NoChild-find key (child j d cs) h = elim (Bool-cases (same j key)) [
  | inl e ↦ absurd (cc (rw e at h))
  | inr e ↦ (ne_of_same j key e, NoChild-find key cs (rw e at h))
]

IsVariable-prefix : (j : Bytes) → IsVariable j → has_prefix j (codes "$") ≡ true
unfolding has_prefix
IsVariable-prefix [] h = absurd h
IsVariable-prefix (c ∷ s) h = ground arith

prefix-IsVariable : (j : Bytes) → has_prefix j (codes "$") ≡ true → IsVariable j
unfolding has_prefix
prefix-IsVariable [] h = cc
prefix-IsVariable (c ∷ s) h = ground arith

no_prefix : (j : Bytes) → (IsVariable j → ⊥) → has_prefix j (codes "$") ≡ false
no_prefix j h = elim (Bool-cases (has_prefix j (codes "$"))) [
  | inl e ↦ absurd (h (prefix-IsVariable j e))
  | inr e ↦ e
]

first-WildcardAt :
    {key : Bytes} {c : RuleNode} {cs : Children}
    → WildcardAt key c cs
    → first_wildcard cs ≡ some (key, c)
unfolding first_wildcard
first-WildcardAt {key} (first v) = rw (IsVariable-prefix key v)
first-WildcardAt (later {j} n h) = rw (no_prefix j n) (first-WildcardAt h)

WildcardAt-first :
    (key : Bytes) (c : RuleNode) (cs : Children)
    → first_wildcard cs ≡ some (key, c)
    → WildcardAt key c cs
unfolding first_wildcard
WildcardAt-first key c no_children h = absurd cc
WildcardAt-first key c (child j d cs) h = elim (Bool-cases (has_prefix j (codes "$"))) [
  | inl e ↦
      let it : (j, d) ≡ (key, c) = some_inj.0 (rw e at h) in
      let same_child : child key c cs ≡ child j d cs = cc (ap (λ x. x.0) it, ap (λ x. x.1) it) in
      subst (WildcardAt key c) same_child
        (first (subst IsVariable (ap (λ x. x.0) it) (prefix-IsVariable j e)))
  | inr e ↦ later (λ v. cc (e, IsVariable-prefix j v)) (WildcardAt-first key c cs (rw e at h))
]

pub descend-Below :
    {seg : Bytes} {cs : Children} {vars vars' : Dict Bytes} {c : RuleNode}
    → Below seg cs vars c vars'
    → descend seg cs vars ≡ some (c, vars')
unfolding descend
descend-Below (literal h) = rw (find-ChildAt h, descend)
descend-Below {seg} {cs} (wildcard n h) = rw (find-NoChild seg cs n, first-WildcardAt h, descend)

pub Below-descend :
    (seg : Bytes) (cs : Children) (vars vars' : Dict Bytes) (c : RuleNode)
    → descend seg cs vars ≡ some (c, vars')
    → Below seg cs vars c vars'
unfolding descend
Below-descend seg cs vars vars' c h = elim (Option-cases (find_child seg cs)) [
  | inr (d, e) ↦
      let it : (d, vars) ≡ (c, vars') = some_inj.0 (rw (e, descend) at h) in
      subst (λ x. Below seg cs vars x.0 x.1) it (literal (ChildAt-find seg d cs e))
  | inl e ↦ elim (Option-cases (first_wildcard cs)) [
    | inl none_left ↦ absurd (cc (rw (e, none_left, descend) at h))
    | inr ((key, d), w) ↦
        let it : (d, insert key seg vars) ≡ (c, vars') = some_inj.0 (rw (e, w, descend) at h) in
        subst (λ x. Below seg cs vars x.0 x.1) it
          (wildcard (NoChild-find seg cs e) (WildcardAt-first key d cs w))
  ]
]

is_empty-ne-nil : (s : Bytes) → s ≢ [] → is_empty s ≡ false
is_empty-ne-nil [] h = absurd (h refl)
is_empty-ne-nil (c ∷ s) h = refl

pub granted-Allows :
    (op : Bytes) (auth : AuthCtx) (n : RuleNode) (vars : Dict Bytes)
    → Allows op auth n vars
    → granted op auth n vars ≡ true
unfolding granted node_rule
granted-Allows op auth (node r w cs) vars (inl (e, some_rule, true_rule)) =
    rw ((same_iff op (codes "read")).1 e, is_empty-ne-nil r some_rule, true_rule)
granted-Allows op auth (node r w cs) vars (inr (e, some_rule, true_rule)) =
    rw (same_ne op (codes "read") e, is_empty-ne-nil w some_rule, true_rule)

true_rule : (rule : Bytes) (b : Bool) → (not (is_empty rule) && b) ≡ true → (rule ≢ []) × (b ≡ true)
true_rule [] b h = absurd cc
true_rule (c ∷ s) b h = (λ e. cc, h)

pub Allows-granted :
    (op : Bytes) (auth : AuthCtx) (n : RuleNode) (vars : Dict Bytes)
    → granted op auth n vars ≡ true
    → Allows op auth n vars
unfolding granted node_rule
Allows-granted op auth (node r w cs) vars h = elim (Bool-cases (same op (codes "read"))) [
  | inl e ↦
      let (some_rule, holds) = true_rule r (eval_expr r auth vars) (rw e at h) in
      inl ((same_iff op (codes "read")).0 e, some_rule, holds)
  | inr e ↦
      let (some_rule, holds) = true_rule w (eval_expr w auth vars) (rw e at h) in
      inr (ne_of_same op (codes "read") e, some_rule, holds)
]
