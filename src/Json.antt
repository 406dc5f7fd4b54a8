-- ===== src/Json.antt =====
-- The values that encoding/json decodes into Go's `any`: what internal/database stores and what
-- the rule files hold. A number is a float64 that the program only copies; it is named by its bits.
use firego.Base.{
  ℕ, ◌≡◌, refl, Bool, Option, none, some, Bytes, same, same_iff, if◌then◌else◌, arith,
}

mutual
  pub data Json : Type 0 where
    null : Json
    bool : Bool → Json
    num : ℕ → Json
    str : Bytes → Json
    arr : Items → Json
    obj : Fields → Json

  -- []any
  pub data Items : Type 0 where
    nil : Items
    cons : Json → Items → Items

  -- map[string]any
  pub data Fields : Type 0 where
    end : Fields
    field : Bytes → Json → Fields → Fields

-- m[k]
unfoldable pub get_field : Bytes → Fields → Option Json
get_field k end = none
get_field k (field j v m) = if same j k then some v else get_field k m

-- m[k] = v
unfoldable pub set_field : Bytes → Json → Fields → Fields
set_field k v end = field k v end
set_field k v (field j w m) = if same j k then field k v m else field j w (set_field k v m)

-- delete(m, k)
unfoldable pub del_field : Bytes → Fields → Fields
del_field k end = end
del_field k (field j w m) = let rest = del_field k m in if same j k then rest else field j w rest

-- `for k, v := range value { target[k] = v }`
unfoldable pub merge_fields : Fields → Fields → Fields
unfolding set_field
merge_fields end target = target
merge_fields (field k v m) target = merge_fields m (set_field k v target)

-- v.(map[string]any)
abbrev pub as_obj : Json → Option Fields
as_obj (obj m) = some m
as_obj _ = none

-- A map that may be nil: what a `range` of it visits, and its JSON.
abbrev pub fields_of : Option Fields → Fields
fields_of none = end
fields_of (some m) = m

abbrev pub encode_map : Option Fields → Json
encode_map none = null
encode_map (some m) = obj m

module _ (k j : Bytes) where
  pub get_field-set_field :
      (v : Json) (m : Fields)
      → get_field j (set_field k v m) ≡ (if same k j then some v else get_field j m)
  unfolding get_field set_field
  get_field-set_field v end = refl
  get_field-set_field v (field i w m) =
      ground (arith, same_iff k j, same_iff i k, same_iff i j, get_field-set_field v m)

  pub get_field-del_field :
      (m : Fields) → get_field j (del_field k m) ≡ (if same k j then none else get_field j m)
  unfolding get_field del_field
  get_field-del_field end = ground arith
  get_field-del_field (field i w m) =
      ground (arith, same_iff k j, same_iff i k, same_iff i j, get_field-del_field m)

pub ruleset field_laws = (get_field-set_field, get_field-del_field)

-- A file that should hold JSON: a broken one has a text that does not decode.
pub data File : Type 0 where
  absent : File
  holds : Json → File
  broken : File

-- How a write in place ends. One that fails may leave anything in the file.
pub data Write : Type 0 where
  written : Write
  failed : File → Write
