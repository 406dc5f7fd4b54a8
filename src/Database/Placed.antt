-- ===== src/Database/Placed.antt =====
-- internal/database/database.go: what each operation does to a leaf.
use firego.Base.{
  ◌≡◌, refl, sym, ap, ◌∙◌, Option, none, some, List, [], ◌∷◌, ◌++◌, Bytes, append_assoc, ◌>>=◌,
}
use firego.Json.{Json, Fields, null, obj, get_field, set_field}
use firego.Database.Tree.{
  set_at, update_at, delete_at, delete_below, get_at, in_parent, child_map, merge_child,
}
use firego.Database.Laws.{
  UniqueFields, get-set_at, get-set_at-Parts, get-update_at, get-update_at_obj, get-update_at-Parts,
  get_at-append, get_step, or_else, get_field-merge,
}
use firego.Database.Deletion.{get-delete_at, get-delete_at-Parts}
use firego.Database.Leaves.{
  Place, below, above, apart, place, as_leaf, leaf_at, set_leaf, or_old, update_leaf, delete_leaf,
  Places, place_lem, written,
}

-- Above the place of a change there is an object.
in_parent_above :
    (q : List Bytes) (j : Bytes) (r : List Bytes) (f : Bytes → Fields → Fields) (m : Fields)
    → leaf_at q (obj (in_parent (q ++ j ∷ r) f m)) ≡ none
unfolding leaf_at in_parent
in_parent_above [] j r f m = refl
in_parent_above (y ∷ []) j r f m = ap (λ o. o >>= as_leaf) (get_step y [] _ m refl)
in_parent_above (y ∷ z ∷ q) j r f m =
    ap (λ o. o >>= as_leaf) (get_step y (z ∷ q) _ m refl)
    ∙ in_parent_above (z ∷ q) j r f (child_map (get_field y m))

leaf_of_get :
    (q : List Bytes) (v : Json) (o : Option Json) → get_at q v ≡ o → leaf_at q v ≡ (o >>= as_leaf)
unfolding leaf_at
leaf_of_get q v o e = ap (λ x. x >>= as_leaf) e

above_in :
    (p q : List Bytes) (j : Bytes) (r : List Bytes) (f : Bytes → Fields → Fields) (m : Fields)
    → p ≡ q ++ j ∷ r
    → leaf_at q (obj (in_parent p f m)) ≡ none
above_in p q j r f m e = ap (λ x. leaf_at q (obj (in_parent x f m))) e ∙ in_parent_above q j r f m

leaf-set_below :
    (k : Bytes) (segs q : List Bytes) (v : Json) (root : Fields) (pl : Place)
    → Places (k ∷ segs) q pl
    → leaf_at q (obj (set_at (k ∷ segs) v root)) ≡ set_leaf pl v (leaf_at q (obj root))
unfolding leaf_at set_at
leaf-set_below k segs q v root (below more) h =
    ap (λ x. leaf_at x (obj (set_at (k ∷ segs) v root))) h
    ∙ leaf_of_get (k ∷ segs ++ more) (obj (set_at (k ∷ segs) v root)) (get_at more v)
        (get-set_at k segs more v root)
leaf-set_below k segs q v root above (j, r, e) = above_in (k ∷ segs) q j r _ root e
leaf-set_below k segs q v root apart h =
    ap (λ o. o >>= as_leaf) (get-set_at-Parts (k ∷ segs) q v root h)

pub leaf-set_at :
    (p q : List Bytes) (v : Json) (root : Fields)
    → leaf_at q (obj (set_at p v root)) ≡ set_leaf (place p q) (written p v) (leaf_at q (obj root))
leaf-set_at [] q v root = unfold place in (unfold set_at in refl)
leaf-set_at (k ∷ segs) q v root =
    leaf-set_below k segs q v root (place (k ∷ segs) q) (place_lem (k ∷ segs) q)

-- One segment of a deletion further down.
abbrev stepped : Bytes → Bytes → List Bytes → Fields → Option Json → Fields
stepped y h t m (some (obj c)) = set_field y (obj (delete_below (h ∷ t) c)) m
stepped y h t m _ = m

stepped_lem :
    (y h : Bytes) (t : List Bytes) (m : Fields) (o : Option Json)
    → get_field y m ≡ o
    → delete_below (y ∷ h ∷ t) m ≡ stepped y h t m o
unfolding delete_below
stepped_lem y h t m none e = rw (delete_below, e) refl
stepped_lem y h t m (some (obj c)) e = rw (delete_below, e) refl
stepped_lem y h t m (some null) e = rw (delete_below, e) refl
stepped_lem y h t m (some v) e = rw (delete_below, e) refl

leaf-stepped :
    (y h : Bytes) (q t : List Bytes) (m : Fields) (o : Option Json)
    → get_field y m ≡ o
    → ((c : Fields) → leaf_at q (obj (delete_below (h ∷ t) c)) ≡ leaf_at q (obj c))
    → leaf_at (y ∷ q) (obj (stepped y h t m o)) ≡ leaf_at (y ∷ q) (obj m)
unfolding leaf_at
leaf-stepped y h q t m none e next = refl
leaf-stepped y h q t m (some (obj c)) e next =
    ap (λ o. o >>= as_leaf) (get_step y q (obj (delete_below (h ∷ t) c)) m refl)
    ∙ next c
    ∙ sym (ap (λ o. (o >>= get_at q) >>= as_leaf) e)
leaf-stepped y h q t m (some null) e next = refl
leaf-stepped y h q t m (some v) e next = refl

delete_in :
    (y h : Bytes) (q t : List Bytes) (m : Fields)
    → ((c : Fields) → leaf_at q (obj (delete_below (h ∷ t) c)) ≡ leaf_at q (obj c))
    → leaf_at (y ∷ q) (obj (delete_below (y ∷ h ∷ t) m)) ≡ leaf_at (y ∷ q) (obj m)
delete_in y h q t m next =
    ap (λ x. leaf_at (y ∷ q) (obj x)) (stepped_lem y h t m (get_field y m) refl)
    ∙ leaf-stepped y h q t m (get_field y m) refl next

delete_above :
    (q : List Bytes) (j : Bytes) (r : List Bytes) (m : Fields)
    → leaf_at q (obj (delete_below (q ++ j ∷ r) m)) ≡ leaf_at q (obj m)
delete_above [] j r m = unfold leaf_at in refl
delete_above (y ∷ []) j r m = delete_in y j [] r m (λ c. delete_above [] j r c)
delete_above (y ∷ z ∷ q) j r m =
    delete_in y z (z ∷ q) (q ++ j ∷ r) m (λ c. delete_above (z ∷ q) j r c)

leaf-delete_below :
    (k : Bytes) (segs q : List Bytes) (root : Fields) (pl : Place)
    → Places (k ∷ segs) q pl
    → leaf_at q (obj (delete_at (k ∷ segs) root)) ≡ delete_leaf pl (leaf_at q (obj root))
unfolding leaf_at delete_at
leaf-delete_below k segs q root (below more) h =
    ap (λ x. leaf_at x (obj (delete_at (k ∷ segs) root))) h
    ∙ leaf_of_get (k ∷ segs ++ more) (obj (delete_at (k ∷ segs) root)) none
        (get-delete_at k segs more root)
leaf-delete_below k segs q root above (j, r, e) =
    ap (λ x. leaf_at q (obj (delete_below x root))) e ∙ delete_above q j r root
leaf-delete_below k segs q root apart h =
    ap (λ o. o >>= as_leaf) (get-delete_at-Parts (k ∷ segs) q root h)

nothing_left : (root : Fields) (q : List Bytes) → leaf_at q (obj (delete_at [] root)) ≡ none
unfolding leaf_at delete_at get_field
nothing_left root [] = refl
nothing_left root (k ∷ q) = refl

pub leaf-delete_at :
    (p q : List Bytes) (root : Fields)
    → leaf_at q (obj (delete_at p root)) ≡ delete_leaf (place p q) (leaf_at q (obj root))
leaf-delete_at [] q root = unfold place in nothing_left root q
leaf-delete_at (k ∷ segs) q root =
    leaf-delete_below k segs q root (place (k ∷ segs) q) (place_lem (k ∷ segs) q)

leaf-update_found :
    (k j : Bytes) (segs more : List Bytes) (value root : Fields) (o : Option Json)
    → (or_else o (get_at (k ∷ segs ++ j ∷ []) (obj root)) >>= get_at more) >>= as_leaf
      ≡ or_old more o (leaf_at (k ∷ segs ++ j ∷ more) (obj root))
unfolding leaf_at
leaf-update_found k j segs more value root none =
    ap (λ o. o >>= as_leaf)
      (sym (get_at-append (k ∷ segs ++ j ∷ []) more (obj root))
        ∙ ap (λ p. get_at p (obj root)) (append_assoc (k ∷ segs) (j ∷ []) more))
leaf-update_found k j segs more value root (some v) = refl

leaf-update_below :
    (k : Bytes) (segs q : List Bytes) (value root : Fields) (pl : Place)
    → UniqueFields value
    → Places (k ∷ segs) q pl
    → leaf_at q (obj (update_at (k ∷ segs) value root))
      ≡ update_leaf pl value (leaf_at q (obj root))
unfolding leaf_at
leaf-update_below k segs q value root (below []) u h =
    ap (λ x. leaf_at x (obj (update_at (k ∷ segs) value root))) h
    ∙ ap (λ o. o >>= as_leaf) (get-update_at_obj k segs value root)
leaf-update_below k segs q value root (below (j ∷ more)) u h =
    ap (λ x. leaf_at x (obj (update_at (k ∷ segs) value root))) h
    ∙ ap (λ o. o >>= as_leaf) (get-update_at k j segs more value root u)
    ∙ leaf-update_found k j segs more value root (get_field j value)
    ∙ ap (λ x. or_old more (get_field j value) (leaf_at x (obj root))) (sym h)
leaf-update_below k segs q value root above u (j, r, e) =
    unfold update_at in above_in (k ∷ segs) q j r (merge_child value) root e
leaf-update_below k segs q value root apart u h =
    ap (λ o. o >>= as_leaf) (get-update_at-Parts (k ∷ segs) q value root h)

leaf-merged :
    (j : Bytes) (more : List Bytes) (root : Fields) (o : Option Json)
    → ((or_else o (get_field j root) >>= get_at more) >>= as_leaf)
      ≡ or_old more o (leaf_at (j ∷ more) (obj root))
unfolding leaf_at
leaf-merged j more root none = refl
leaf-merged j more root (some v) = refl

pub leaf-update_at :
    (p q : List Bytes) (value root : Fields)
    → UniqueFields value
    → leaf_at q (obj (update_at p value root))
      ≡ update_leaf (place p q) value (leaf_at q (obj root))
unfolding place
leaf-update_at [] [] value root u = unfold leaf_at in refl
leaf-update_at [] (j ∷ more) value root u =
    unfold leaf_at in
    (unfold update_at in
      ap (λ o. (o >>= get_at more) >>= as_leaf) (get_field-merge value root j u)
      ∙ leaf-merged j more root (get_field j value))
leaf-update_at (k ∷ segs) q value root u =
    leaf-update_below k segs q value root (place (k ∷ segs) q) u (place_lem (k ∷ segs) q)
