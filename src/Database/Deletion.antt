-- ===== src/Database/Deletion.antt =====
-- internal/database/database.go: what `Get` returns after `Delete`, on segments.
use firego.Base.{
  ◌≡◌, refl, sym, ap, subst, ◌∙◌, true, false, Bool-cases, inl, inr, Option, none, some, List, [],
  ◌∷◌, ◌++◌, Bytes, same, same_iff, same_refl, ◌>>=◌,
}
use firego.Json.{Json, Fields, null, obj, get_field, set_field, get_field-del_field}
use firego.Database.Tree.{delete_below, delete_at, get_at}
use firego.Database.Laws.{Parts, get_cons, get_step, get_step_ne}

-- The deletion goes on in the map at `k`, if there is one.
abbrev delete_in : Bytes → List Bytes → Fields → Option Json → Fields
delete_in k segs m (some (obj c)) = set_field k (obj (delete_below segs c)) m
delete_in k segs m _ = m

delete_step :
    (k j : Bytes) (segs : List Bytes) (m : Fields) (o : Option Json)
    → get_field k m ≡ o
    → delete_below (k ∷ j ∷ segs) m ≡ delete_in k (j ∷ segs) m o
unfolding delete_below
delete_step k j segs m none e = rw (e, delete_below)
delete_step k j segs m (some (obj c)) e = rw (e, delete_below)
delete_step k j segs m (some null) e = rw (e, delete_below)
delete_step k j segs m (some v) e = rw (e, delete_below)

gone_in :
    (k j : Bytes) (q segs : List Bytes) (m : Fields) (o : Option Json)
    → get_field k m ≡ o
    → ((c : Fields) → get_at (j ∷ q) (obj (delete_below segs c)) ≡ none)
    → get_at (k ∷ j ∷ q) (obj (delete_in k segs m o)) ≡ none
unfolding get_at
gone_in k j q segs m (some (obj c)) e h = get_step k (j ∷ q) _ m (h c)
gone_in k j q segs m none e h = rw e
gone_in k j q segs m (some null) e h = rw e
gone_in k j q segs m (some v) e h = rw e

del_self : (k : Bytes) (m : Fields) → get_field k (delete_below (k ∷ []) m) ≡ none
unfolding delete_below
del_self k m = rw (get_field-del_field k k m, same_refl k)

del_ne :
    (k y : Bytes) (m : Fields)
    → same k y ≡ false
    → get_field y (delete_below (k ∷ []) m) ≡ get_field y m
unfolding delete_below
del_ne k y m e = rw (get_field-del_field k y m, e)

gone :
    (k : Bytes) (segs more : List Bytes) (m : Fields)
    → get_at ((k ∷ segs) ++ more) (obj (delete_below (k ∷ segs) m)) ≡ none
gone k [] more m =
    get_cons k more (delete_below (k ∷ []) m) ∙ ap (λ o. o >>= get_at more) (del_self k m)
gone k (j ∷ segs) more m =
    rw (delete_step k j segs m (get_field k m) refl)
      (gone_in k j (segs ++ more) (j ∷ segs) m (get_field k m) refl (gone j segs more))

-- After `Delete` nothing is left at the path, nor below it.
pub get-delete_at :
    (k : Bytes) (segs more : List Bytes) (root : Fields)
    → get_at ((k ∷ segs) ++ more) (obj (delete_at (k ∷ segs) root)) ≡ none
unfolding delete_at
get-delete_at k segs more root = gone k segs more root

stays_in :
    (k y : Bytes) (q segs : List Bytes) (m : Fields) (o : Option Json)
    → get_field k m ≡ o
    → (same k y ≡ true → (c : Fields) → get_at q (obj (delete_below segs c)) ≡ get_at q (obj c))
    → get_at (y ∷ q) (obj (delete_in k segs m o)) ≡ get_at (y ∷ q) (obj m)
stays_in k y q segs m (some (obj c)) e h = elim (Bool-cases (same k y)) [
  | inl t ↦
      subst (λ i. get_at (i ∷ q) (obj (delete_in k segs m (some (obj c)))) ≡ get_at (i ∷ q) (obj m))
        ((same_iff k y).0 t) (get_step k q _ m (h t c) ∙ sym (get_cons k q m ∙ rw e))
  | inr t ↦ get_step_ne k y q _ m t
]
stays_in k y q segs m none e h = refl
stays_in k y q segs m (some null) e h = refl
stays_in k y q segs m (some v) e h = refl

stays :
    (p q : List Bytes) (m : Fields)
    → Parts p q
    → get_at q (obj (delete_below p m)) ≡ get_at q (obj m)
stays [] q m d = absurd d
stays (k ∷ p) [] m d = absurd d
stays (k ∷ []) (y ∷ q) m d = elim (Bool-cases (same k y)) [
  | inl e ↦ absurd (rw e at d)
  | inr e ↦
      get_cons y q (delete_below (k ∷ []) m)
      ∙ ap (λ o. o >>= get_at q) (del_ne k y m e)
      ∙ sym (get_cons y q m)
]
stays (k ∷ j ∷ segs) (y ∷ q) m d =
    rw (delete_step k j segs m (get_field k m) refl)
      (stays_in k y q (j ∷ segs) m (get_field k m) refl (λ t c. stays (j ∷ segs) q c (rw t at d)))

-- `Delete` changes no path that parts from its own.
pub get-delete_at-Parts :
    (p q : List Bytes) (root : Fields)
    → Parts p q
    → get_at q (obj (delete_at p root)) ≡ get_at q (obj root)
unfolding delete_at
get-delete_at-Parts [] q root d = absurd d
get-delete_at-Parts (k ∷ p) q root d = stays (k ∷ p) q root d
