-- ===== src/Database/Laws.antt =====
-- internal/database/database.go: what `Get` returns after the other operations, on segments.
use firego.Base.{
  ◌≡◌, refl, sym, ap, subst, ◌∙◌, false, Bool-cases, inl, inr, Option, none, some, List, [], ◌∷◌,
  ◌++◌, Bytes, same, same_iff, same_refl, if◌then◌else◌, ◌>>=◌,
}
use firego.Json.{
  Json, Items, Fields, null, bool, num, str, arr, obj, nil, cons, end, field, get_field, set_field,
  merge_fields, get_field-set_field,
}
use firego.Database.Tree.{
  child_map, in_parent, set_at, merge_child, update_at, deep_copy, copy_items, copy_fields, get_at,
}

-- The copy has the value's contents.
mutual
  unfolding deep_copy

  deep_copy_lem : (v : Json) → deep_copy v ≡ v
  deep_copy_lem (obj m) = ap obj (copy_fields_lem m)
  deep_copy_lem (arr xs) = ap arr (copy_items_lem xs)
  deep_copy_lem null = refl
  deep_copy_lem (bool b) = refl
  deep_copy_lem (num n) = refl
  deep_copy_lem (str s) = refl

  copy_items_lem : (xs : Items) → copy_items xs ≡ xs
  copy_items_lem nil = refl
  copy_items_lem (cons x xs) = rw (deep_copy_lem x, copy_items_lem xs)

  copy_fields_lem : (m : Fields) → copy_fields m ≡ m
  copy_fields_lem end = refl
  copy_fields_lem (field k v m) = rw (deep_copy_lem v, copy_fields_lem m)

pub deep_copy_same : (v : Json) → deep_copy v ≡ v
deep_copy_same v = deep_copy_lem v

-- The paths part: neither leads on from the other.
abbrev pub Parts : List Bytes → List Bytes → Type 0
Parts (x ∷ p) (y ∷ q) = if same x y then Parts p q else Unit
Parts _ _ = ⊥

pub get_cons :
    (k : Bytes) (segs : List Bytes) (m : Fields)
    → get_at (k ∷ segs) (obj m) ≡ (get_field k m >>= get_at segs)
unfolding get_at
get_cons k segs m = refl

-- A map that a write creates where there was none holds nothing.
get_at-child_map :
    (x : Bytes) (q : List Bytes) (o : Option Json)
    → get_at (x ∷ q) (obj (child_map o)) ≡ (o >>= get_at (x ∷ q))
unfolding get_at get_field
get_at-child_map x q none = refl
get_at-child_map x q (some (obj m)) = refl
get_at-child_map x q (some null) = refl
get_at-child_map x q (some v) = refl

bind_get_at_nil : (o : Option Json) → (o >>= get_at []) ≡ o
unfolding get_at
bind_get_at_nil none = refl
bind_get_at_nil (some v) = refl

-- What a change of the parent map makes of the value at the path: `g`, of the value that was there.
get-in_parent :
    (k : Bytes) (segs more : List Bytes) (f : Bytes → Fields → Fields) (g : Option Json → Json)
    (m : Fields)
    → ((last : Bytes) (parent : Fields)
        → get_field last (f last parent) ≡ some (g (get_field last parent)))
    → get_at ((k ∷ segs) ++ more) (obj (in_parent (k ∷ segs) f m))
      ≡ get_at more (g (get_at (k ∷ segs) (obj m)))
unfolding in_parent
get-in_parent k [] more f g m h = rw (get_cons k more, h k m, get_cons k [], bind_get_at_nil)
get-in_parent k (j ∷ segs) more f g m h =
    rw
      (
        get_cons k ((j ∷ segs) ++ more),
        get_field-set_field k k,
        same_refl k,
        get_cons k (j ∷ segs),
        ← get_at-child_map j segs (get_field k m),
      )
      (get-in_parent j segs more f g (child_map (get_field k m)) h)

set_field_self :
    (v : Json) (last : Bytes) (parent : Fields) → get_field last (set_field last v parent) ≡ some v
set_field_self v last parent = rw (get_field-set_field last last v parent, same_refl last)

-- After `Set` at a path other than the root, the value is there, with all that is in it.
pub get-set_at :
    (k : Bytes) (segs more : List Bytes) (v : Json) (root : Fields)
    → get_at ((k ∷ segs) ++ more) (obj (set_at (k ∷ segs) v root)) ≡ get_at more v
unfolding set_at
get-set_at k segs more v root = get-in_parent k segs more _ (λ o. v) root (set_field_self v)

-- Each key stands once, as in every Go map.
abbrev pub UniqueFields : Fields → Type 0
UniqueFields end = Unit
UniqueFields (field k v m) = (get_field k m ≡ none) × UniqueFields m

abbrev pub or_else : Option Json → Option Json → Option Json
or_else none o = o
or_else (some v) o = some v

pub get_field-merge :
    (value target : Fields) (j : Bytes)
    → UniqueFields value
    → get_field j (merge_fields value target) ≡ or_else (get_field j value) (get_field j target)
unfolding merge_fields
get_field-merge end target j u = unfold get_field in refl
get_field-merge (field k v m) target j u = elim (Bool-cases (same k j)) [
  | inl e ↦
      let absent : get_field j m ≡ none =
        subst (λ i. get_field i m ≡ none) ((same_iff k j).0 e) u.0 in
      get_field-merge m (set_field k v target) j u.1
      ∙ rw (absent, get_field-set_field k j v target, e) (unfold get_field in rw e)
  | inr e ↦
      get_field-merge m (set_field k v target) j u.1
      ∙ rw (get_field-set_field k j v target, e) (unfold get_field in rw e)
]

get_bind_obj :
    (j : Bytes) (more : List Bytes) (value : Fields) (o : Option Json)
    → UniqueFields value
    → get_at (j ∷ more) (obj (merge_fields value (child_map o)))
      ≡ (or_else (get_field j value) (o >>= get_at (j ∷ [])) >>= get_at more)
get_bind_obj j more value o u = rw (
  get_cons j more,
  get_field-merge value (child_map o) j u,
  ← get_at-child_map j [] o,
  get_cons j [],
  bind_get_at_nil,
)

get_at-bind :
    (p q : List Bytes) (o : Option Json)
    → ((v : Json) → get_at (p ++ q) v ≡ (get_at p v >>= get_at q))
    → (o >>= get_at (p ++ q)) ≡ (o >>= get_at p >>= get_at q)
get_at-bind p q none h = refl
get_at-bind p q (some v) h = h v

pub get_at-append : (p q : List Bytes) (v : Json) → get_at (p ++ q) v ≡ (get_at p v >>= get_at q)
unfolding get_at
get_at-append [] q v = refl
get_at-append (k ∷ p) q (obj m) = get_at-bind p q (get_field k m) (get_at-append p q)
get_at-append (k ∷ p) q null = refl
get_at-append (k ∷ p) q v = refl

-- After `Update`, each of the fields is there with its value, and what else the object at the path
-- held stays.
pub get-update_at :
    (k j : Bytes) (segs more : List Bytes) (value root : Fields)
    → UniqueFields value
    → get_at ((k ∷ segs) ++ (j ∷ more)) (obj (update_at (k ∷ segs) value root))
      ≡ (or_else (get_field j value) (get_at ((k ∷ segs) ++ (j ∷ [])) (obj root)) >>= get_at more)
unfolding update_at
get-update_at k j segs more value root u = rw (get_at-append (k ∷ segs) (j ∷ []) (obj root)) (
    get-in_parent k segs (j ∷ more) (merge_child value)
      (λ o. obj (merge_fields value (child_map o))) root
      (λ last parent. set_field_self _ last parent)
    ∙ get_bind_obj j more value (get_at (k ∷ segs) (obj root)) u)

-- `Update` leaves an object at its path.
pub get-update_at_obj :
    (k : Bytes) (segs : List Bytes) (value root : Fields)
    → get_at ((k ∷ segs) ++ []) (obj (update_at (k ∷ segs) value root))
      ≡ some (obj (merge_fields value (child_map (get_at (k ∷ segs) (obj root)))))
unfolding update_at
get-update_at_obj k segs value root =
    get-in_parent k segs [] (merge_child value) (λ o. obj (merge_fields value (child_map o))) root
      (λ last parent. set_field_self _ last parent)
    ∙ unfold get_at in refl

get_at-child-Parts :
    (p q : List Bytes) (o : Option Json)
    → Parts p q
    → get_at q (obj (child_map o)) ≡ (o >>= get_at q)
get_at-child-Parts [] q o d = absurd d
get_at-child-Parts (x ∷ p) [] o d = absurd d
get_at-child-Parts (x ∷ p) (y ∷ q) o d = get_at-child_map y q o

pub get_step :
    (k : Bytes) (q : List Bytes) (v : Json) (m : Fields) {r : Option Json}
    → get_at q v ≡ r
    → get_at (k ∷ q) (obj (set_field k v m)) ≡ r
get_step k q v m e = rw (get_cons k q, set_field_self v k m) e

pub get_step_ne :
    (k y : Bytes) (q : List Bytes) (v : Json) (m : Fields)
    → same k y ≡ false
    → get_at (y ∷ q) (obj (set_field k v m)) ≡ get_at (y ∷ q) (obj m)
get_step_ne k y q v m e =
    get_cons y q (set_field k v m)
    ∙ ap (λ o. o >>= get_at q) (get_field-set_field k y v m ∙ rw e)
    ∙ sym (get_cons y q m)

-- A change of the parent map that leaves its other keys alone leaves every other path alone.
get-in_parent-Parts :
    (k : Bytes) (segs q : List Bytes) (f : Bytes → Fields → Fields) (m : Fields)
    → ((last j : Bytes) (parent : Fields)
        → same last j ≡ false
        → get_field j (f last parent) ≡ get_field j parent)
    → Parts (k ∷ segs) q
    → get_at q (obj (in_parent (k ∷ segs) f m)) ≡ get_at q (obj m)
unfolding in_parent
get-in_parent-Parts k segs [] f m h d = absurd d
get-in_parent-Parts k [] (y ∷ q) f m h d = elim (Bool-cases (same k y)) [
  | inl e ↦ absurd (rw e at d)
  | inr e ↦ rw (get_cons y q, h k y m e, ← get_cons y q m)
]
get-in_parent-Parts k (j ∷ segs) (y ∷ q) f m h d = elim (Bool-cases (same k y)) [
  | inl e ↦
      subst (λ i. get_at (i ∷ q) (obj (in_parent (k ∷ j ∷ segs) f m)) ≡ get_at (i ∷ q) (obj m))
        ((same_iff k y).0 e)
        (get_step k q _ m (get-in_parent-Parts j segs q f (child_map (get_field k m)) h (rw e at d))
          ∙ get_at-child-Parts (j ∷ segs) q (get_field k m) (rw e at d)
          ∙ sym (get_cons k q m))
  | inr e ↦ get_step_ne k y q _ m e
]

set_field_ne :
    (v : Json) (last j : Bytes) (parent : Fields)
    → same last j ≡ false
    → get_field j (set_field last v parent) ≡ get_field j parent
set_field_ne v last j parent e = rw (get_field-set_field last j v parent, e)

-- `Set` and `Update` change no path that parts from theirs.
pub get-set_at-Parts :
    (p q : List Bytes) (v : Json) (root : Fields)
    → Parts p q
    → get_at q (obj (set_at p v root)) ≡ get_at q (obj root)
unfolding set_at
get-set_at-Parts [] q v root d = absurd d
get-set_at-Parts (k ∷ segs) q v root d = get-in_parent-Parts k segs q _ root (set_field_ne v) d

pub get-update_at-Parts :
    (p q : List Bytes) (value root : Fields)
    → Parts p q
    → get_at q (obj (update_at p value root)) ≡ get_at q (obj root)
unfolding update_at
get-update_at-Parts [] q value root d = absurd d
get-update_at-Parts (k ∷ segs) q value root d =
    get-in_parent-Parts k segs q (merge_child value) root
      (λ last j parent. set_field_ne _ last j parent) d
