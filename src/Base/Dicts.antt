-- ===== src/Base/Dicts.antt =====
-- Go's `map[string]V` as an association list. Its order is the order in which a `range` visits it.
use mathlib.Core.Path.{◌≡◌, refl}
use mathlib.Core.Option.{Option, none, some}
use mathlib.Core.List.{List, [], ◌∷◌}
use native.Mathlib.Omega.{arith}
use firego.Base.Logic.{if◌then◌else◌}
use firego.Base.Texts.{Bytes, same, same_iff}

abbrev pub Dict {ℓ} : Type ℓ → Type ℓ
Dict V = List (Bytes × V)

module _ {ℓ} {V : Type ℓ} where
  -- m[key]
  unfoldable pub lookup : Bytes → Dict V → Option V
  lookup key [] = none
  lookup key (entry ∷ m) =
      let later = lookup key m in if same entry.0 key then some entry.1 else later

  -- m[key] = value
  unfoldable pub insert : Bytes → V → Dict V → Dict V
  insert key value [] = (key, value) ∷ []
  insert key value (entry ∷ m) =
      let later = insert key value m in if same entry.0 key then (key, value) ∷ m else entry ∷ later

  -- delete(m, key)
  unfoldable pub delete : Bytes → Dict V → Dict V
  delete key [] = []
  delete key (entry ∷ m) =
      let later = delete key m in if same entry.0 key then later else entry ∷ later

  pub lookup-insert :
      (at key : Bytes) (value : V) (m : Dict V)
      → lookup key (insert at value m) ≡ (if same at key then some value else lookup key m)
  unfolding lookup insert
  lookup-insert at key value [] = refl
  lookup-insert at key value (entry ∷ m) = ground (
    arith,
    lookup-insert at key value m,
    same_iff entry.0 key,
    same_iff entry.0 at,
    same_iff at key,
  )

  pub lookup-delete :
      (at key : Bytes) (m : Dict V)
      → lookup key (delete at m) ≡ (if same at key then none else lookup key m)
  unfolding lookup delete
  lookup-delete at key [] = ground arith
  lookup-delete at key (entry ∷ m) =
      ground
        (arith, lookup-delete at key m, same_iff entry.0 key, same_iff entry.0 at, same_iff at key)

  -- Each key stands once, as in every Go map.
  abbrev pub Unique : Dict V → Type ℓ
  Unique [] = Unit
  Unique ((k, v) ∷ m) = (lookup k m ≡ none) × Unique m

-- The laws of maps, for simp and grind.
pub ruleset dict_laws = (lookup-insert, lookup-delete)
