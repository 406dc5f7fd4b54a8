-- ===== src/Rules/Access.antt =====
-- internal/rules/rules.go: what `CanRead` and `CanWrite` decide.
use firego.Base.{
  ◌≡◌, ◌↔◌, refl, true, false, ◌||◌, Bool-cases, Option-cases, inl, inr, none, some, List, [], ◌∷◌,
  Bytes, Dict, arith,
}
use firego.Paths.{split_path}
use firego.Rules.Eval.{AuthCtx}
use firego.Rules.Tree.{RuleNode, children}
use firego.Rules.Reach.{Below, Allows, descend-Below, Below-descend, granted-Allows, Allows-granted}
use firego.Rules.Check.{RuleSet, granted, descend, walk, check_root, check}

-- A node on the way down the tree grants the access: the node that the way begins at, or one below
-- it.
pub data Grants (op : Bytes) (auth : AuthCtx) : RuleNode → Dict Bytes → List Bytes → Type 0 where
  here :
      {n : RuleNode} {vars : Dict Bytes} {segs : List Bytes}
      → Allows op auth n vars
      → Grants op auth n vars segs
  down :
      {n : RuleNode} {vars : Dict Bytes} {seg : Bytes} {segs : List Bytes} (c : RuleNode)
      (vars' : Dict Bytes)
      → Below seg (children n) vars c vars'
      → Grants op auth c vars' segs
      → Grants op auth n vars (seg ∷ segs)

module _ (op : Bytes) (auth : AuthCtx) where
  walk_step :
      (n c : RuleNode) (vars vars' : Dict Bytes) (seg : Bytes) (segs : List Bytes)
      → descend seg (children n) vars ≡ some (c, vars')
      → walk op auth n vars (seg ∷ segs) ≡ (granted op auth c vars' || walk op auth c vars' segs)
  unfolding walk
  walk_step n c vars vars' seg segs e = rw (e, walk)

  walk_stop :
      (n : RuleNode) (vars : Dict Bytes) (seg : Bytes) (segs : List Bytes)
      → descend seg (children n) vars ≡ none
      → walk op auth n vars (seg ∷ segs) ≡ false
  unfolding walk
  walk_stop n vars seg segs e = rw (e, walk)

  walk_nil : (n : RuleNode) (vars : Dict Bytes) → walk op auth n vars [] ≡ false
  unfolding walk
  walk_nil n vars = refl

  Grants-below :
      (segs : List Bytes) (n : RuleNode) (vars : Dict Bytes)
      → walk op auth n vars segs ≡ true
      → Grants op auth n vars segs
  Grants-below [] n vars h = cc (walk_nil n vars)
  Grants-below (seg ∷ segs) n vars h = elim (Option-cases (descend seg (children n) vars)) [
    | inl e ↦ cc (walk_stop n vars seg segs e)
    | inr ((c, vars'), e) ↦
        down {segs = segs} c vars' (Below-descend seg (children n) vars vars' c e)
          (elim (Bool-cases (granted op auth c vars')) [
            | inl t ↦ here (Allows-granted op auth _ _ t)
            | inr t ↦
                Grants-below segs c vars' (ground (arith, walk_step n c vars vars' seg segs e))
          ])
  ]

  -- The loop, with the test of the node that it starts from, finds what grants the access.
  Grants-walk :
      {n : RuleNode} {vars : Dict Bytes} {segs : List Bytes}
      → Grants op auth n vars segs
      → (granted op auth n vars || walk op auth n vars segs) ≡ true
  Grants-walk {n} {vars} (here t) = rw (granted-Allows op auth n vars t)
  Grants-walk {n} {vars} (down {seg = seg} {segs = segs} c vars' e g) =
      ground (arith, walk_step n c vars vars' seg segs (descend-Below e), Grants-walk g)

  Grants→root :
      (n : RuleNode) (segs : List Bytes)
      → (granted op auth n [] || walk op auth n [] segs) ≡ true
      → Grants op auth n [] segs
  Grants→root n segs h = elim (Bool-cases (granted op auth n [])) [
    | inl t ↦ here (Allows-granted op auth _ _ t)
    | inr t ↦ Grants-below segs n [] (ground arith)
  ]

  -- For a set of rules with a root, access is granted exactly if the root's rule for the operation,
  -- or that of a node reached along the path, is a nonempty expression that evaluates to true, where
  -- a segment leads to the child of its name and only where there is none to the first wildcard,
  -- whose variable it is then bound to.
  pub check_iff :
      (rs : RuleSet) (n : RuleNode) (path : Bytes)
      → rs.root ≡ some n
      → (check rs path op auth ≡ true) ↔ Grants op auth n [] (split_path path)
  unfolding check
  check_iff rs n path e =
      (λ h. Grants→root n (split_path path) (rw (e, check_root) at h), λ g. rw e (Grants-walk g))
