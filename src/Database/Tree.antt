-- ===== src/Database/Tree.antt =====
-- internal/database/database.go: what the operations do to the maps of the tree, on the segments of
-- a path. The program changes the maps in place; each value in the tree has one owner, so the
-- tree is changed exactly along the path.
use firego.Base.{Option, none, some, List, [], ◌∷◌, Bytes, ◌>>=◌}
use firego.Json.{
  Json, Items, Fields, null, bool, num, str, arr, obj, nil, cons, end, field, get_field, set_field,
  del_field, merge_fields, as_obj,
}

-- `next, ok := cur[seg].(map[string]any); if !ok { next = map[string]any{} }`
abbrev pub child_map : Option Json → Fields
child_map (some (obj m)) = m
child_map _ = end

-- `ensureParent`, and what its caller then does with the parent map and the last segment.
unfoldable pub in_parent : List Bytes → (Bytes → Fields → Fields) → Fields → Fields
in_parent [] f m = m
in_parent (k ∷ []) f m = f k m
in_parent (k ∷ j ∷ segs) f m =
    set_field k (obj (in_parent (j ∷ segs) f (child_map (get_field k m)))) m

-- The tree after `Set`.
abbrev pub root_of : Json → Fields
root_of (obj m) = m
root_of _ = end

unfoldable pub set_at : List Bytes → Json → Fields → Fields
unfolding in_parent
set_at [] v root = root_of v
set_at (k ∷ segs) v root = in_parent (k ∷ segs) (λ last parent. set_field last v parent) root

-- `Update` at the last segment: the existing map, or a new one, takes the fields.
abbrev pub merge_child : Fields → Bytes → Fields → Fields
merge_child value last parent =
    set_field last (obj (merge_fields value (child_map (get_field last parent)))) parent

-- The tree after `Update`.
unfoldable pub update_at : List Bytes → Fields → Fields → Fields
unfolding in_parent
update_at [] value root = merge_fields value root
update_at (k ∷ segs) value root = in_parent (k ∷ segs) (merge_child value) root

-- The tree after `Delete`: nothing happens where the path leads through no map.
unfoldable pub delete_below : List Bytes → Fields → Fields
delete_below [] m = m
delete_below (k ∷ []) m = del_field k m
delete_below (k ∷ j ∷ segs) m = elim (get_field k m) [
  | some v ↦ elim v [ obj c ↦ set_field k (obj (delete_below (j ∷ segs) c)) m | _ ↦ m ]
  | none ↦ m
]

unfoldable pub delete_at : List Bytes → Fields → Fields
unfolding delete_below
delete_at [] root = end
delete_at (k ∷ segs) root = delete_below (k ∷ segs) root

-- `deepCopy`
unfoldable mutual
  pub deep_copy : Json → Json
  deep_copy (obj m) = obj (copy_fields m)
  deep_copy (arr xs) = arr (copy_items xs)
  deep_copy null = null
  deep_copy (bool b) = bool b
  deep_copy (num n) = num n
  deep_copy (str s) = str s

  pub copy_items : Items → Items
  copy_items nil = nil
  copy_items (cons x xs) = cons (deep_copy x) (copy_items xs)

  pub copy_fields : Fields → Fields
  copy_fields end = end
  copy_fields (field k v m) = field k (deep_copy v) (copy_fields m)

-- The loop of `Get`; `none` is ErrNotFound.
unfoldable pub get_at : List Bytes → Json → Option Json
get_at [] v = some v
get_at (k ∷ segs) v = do m ← as_obj v; w ← get_field k m; get_at segs w
