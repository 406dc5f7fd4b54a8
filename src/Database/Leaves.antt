-- ===== src/Database/Leaves.antt =====
-- internal/database/database.go: the tree as the values at its leaves, which the operations change
-- path by path.
use firego.Base.{
  ◌≡◌, refl, Bool, true, Bool-cases, Option, none, some, List, [], ◌∷◌, ◌++◌, Bytes, same, same_iff,
  inl, inr, ◌>>=◌, if◌then◌else◌,
}
use firego.Json.{Json, Fields, obj, get_field, fields_of}
use firego.Paths.{split_path}
use firego.Database.Tree.{root_of, get_at}
use firego.Database.Laws.{Parts, UniqueFields}
use firego.Database.Effects.{Mutation, sets, updates, deletes}

-- How a path lies to another one: at it or below it, by these segments; above it; or neither.
pub data Place : Type 0 where
  below : List Bytes → Place
  above : Place
  apart : Place

unfoldable pub place : List Bytes → List Bytes → Place
place [] q = below q
place (x ∷ p) [] = above
place (x ∷ p) (y ∷ q) = let rest = place p q in if same x y then rest else apart

abbrev pub as_leaf : Json → Option Json
as_leaf (obj m) = none
as_leaf v = some v

-- The value at a path that is no object, if there is one.
unfoldable pub leaf_at : List Bytes → Json → Option Json
unfolding get_at
leaf_at q v = get_at q v >>= as_leaf

-- The leaf at a path after an operation at a path, by how they lie and the leaf before.
abbrev pub set_leaf : Place → Json → Option Json → Option Json
set_leaf (below more) v old = leaf_at more v
set_leaf above v old = none
set_leaf apart v old = old

abbrev pub or_old : List Bytes → Option Json → Option Json → Option Json
or_old more none old = old
or_old more (some v) old = leaf_at more v

abbrev pub update_leaf : Place → Fields → Option Json → Option Json
update_leaf (below []) value old = none
update_leaf (below (j ∷ more)) value old = or_old more (get_field j value) old
update_leaf above value old = none
update_leaf apart value old = old

abbrev pub delete_leaf : Place → Option Json → Option Json
delete_leaf (below more) old = none
delete_leaf above old = old
delete_leaf apart old = old

-- What a place says of the two paths.
abbrev pub Places : List Bytes → List Bytes → Place → Type 0
Places p q (below more) = q ≡ p ++ more
Places p q above = (j : Bytes) × (r : List Bytes) × (p ≡ q ++ j ∷ r)
Places p q apart = Parts p q

Places-cons :
    (x y : Bytes) (p q : List Bytes) (pl : Place)
    → same x y ≡ true
    → Places p q pl
    → Places (x ∷ p) (y ∷ q) pl
Places-cons x y p q (below more) e h = cc (h, (same_iff x y).0 e)
Places-cons x y p q above e (j, r, h) = (j, r, cc (h, (same_iff x y).0 e))
Places-cons x y p q apart e h = rw e h

pub place_lem : (p q : List Bytes) → Places p q (place p q)
unfolding place
place_lem [] q = refl
place_lem (x ∷ p) [] = (x, p, refl)
place_lem (x ∷ p) (y ∷ q) = elim (Bool-cases (same x y)) [
  | inl e ↦ rw e (Places-cons x y p q (place p q) e (place_lem p q))
  | inr e ↦ rw e (rw e tt)
]

-- What `Set` writes: at the root, a value that is no object counts as none.
abbrev pub written : List Bytes → Json → Json
written [] v = obj (root_of v)
written (k ∷ segs) v = v

-- The specification: a database is a function from paths to leaves, and an operation changes each
-- leaf by how its path lies to that of the operation.
abbrev pub Leaves : Type 0
Leaves = List Bytes → Option Json

unfoldable pub act : Mutation → Leaves → Leaves
unfolding place leaf_at
act (sets path v) l q = set_leaf (place (split_path path) q) (written (split_path path) v) (l q)
act (updates path m) l q = update_leaf (place (split_path path) q) (fields_of m) (l q)
act (deletes path) l q = delete_leaf (place (split_path path) q) (l q)

unfoldable pub act_all : List (Mutation × Bool) → Leaves → Leaves
unfolding act
act_all [] l = l
act_all ((m, disk) ∷ ms) l = act_all ms (act m l)

-- The fields of an update stand once, as in every Go map.
abbrev pub HasUnique : Mutation → Type 0
HasUnique (sets path v) = Unit
HasUnique (updates path m) = UniqueFields (fields_of m)
HasUnique (deletes path) = Unit
