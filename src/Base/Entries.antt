-- ===== src/Base/Entries.antt =====
-- Go's maps: what holds of each entry, and keys that stand once.
use mathlib.Core.Path.{◌≡◌, refl, sym, ap, ◌∙◌, subst}
use mathlib.Core.Logic.{inl, inr}
use mathlib.Core.Bool.{false}
use mathlib.Core.Option.{none, some}
use mathlib.Core.List.{[], ◌∷◌, map}
use native.Mathlib.Omega.{arith}
use firego.Base.Logic.{Bool-cases, All}
use firego.Base.Texts.{Bytes, same, same_iff, same_refl}
use firego.Base.Dicts.{Dict, lookup, insert, delete, Unique, lookup-insert, lookup-delete}

module _ {ℓ} {V : Type ℓ} where
  pub delete-insert :
      (key : Bytes) (v : V) (m : Dict V) → lookup key m ≡ none → delete key (insert key v m) ≡ m
  unfolding lookup insert delete
  delete-insert key v [] h = rw (same_refl key) refl
  delete-insert key v (entry ∷ m) h = elim (Bool-cases (same entry.0 key)) [
    | inl here ↦ absurd (ground (arith, here))
    | inr other ↦
        let free : lookup key (entry ∷ m) ≡ lookup key m = rw other refl in
        rw other (rw other (ap (λ r. entry ∷ r) (delete-insert key v m (sym free ∙ h))))
  ]

  pub lookup-insert-none :
      (key j : Bytes) (v : V) (m : Dict V)
      → lookup j m ≡ none
      → same key j ≡ false
      → lookup j (insert key v m) ≡ none
  lookup-insert-none key j v m free other = rw (lookup-insert key j v m, other) free

  lookup-delete-none :
      (key j : Bytes) (m : Dict V) → lookup j m ≡ none → lookup j (delete key m) ≡ none
  lookup-delete-none key j m free = ground (arith, lookup-delete key j m, free)

  pub Unique-insert : (key : Bytes) (v : V) (m : Dict V) → Unique m → Unique (insert key v m)
  unfolding insert lookup
  Unique-insert key v [] h = (refl, tt)
  Unique-insert key v (entry ∷ m) h = elim (Bool-cases (same entry.0 key)) [
    | inl here ↦ rw here (subst (λ x. lookup x m ≡ none) ((same_iff entry.0 key).0 here) h.0, h.1)
    | inr other ↦
        let apart : same key entry.0 ≡ false =
          ground (arith, other, same_iff key entry.0, same_iff entry.0 key) in
        rw other (lookup-insert-none key entry.0 v m h.0 apart, Unique-insert key v m h.1)
  ]

  pub Unique-delete : (key : Bytes) (m : Dict V) → Unique m → Unique (delete key m)
  unfolding delete
  Unique-delete key [] h = tt
  Unique-delete key (entry ∷ m) h = elim (Bool-cases (same entry.0 key)) [
    | inl here ↦ rw here (Unique-delete key m h.1)
    | inr other ↦ rw other (lookup-delete-none key entry.0 m h.0, Unique-delete key m h.1)
  ]

  found_later :
      (key : Bytes) (v : V) (m rest : Dict V)
      → lookup key m ≡ none
      → All (λ entry. lookup entry.0 m ≡ some entry.1) rest
      → All (λ entry. lookup entry.0 ((key, v) ∷ m) ≡ some entry.1) rest
  unfolding lookup
  found_later key v m [] free h = tt
  found_later key v m (entry ∷ rest) free h = elim (Bool-cases (same key entry.0)) [
    | inl here ↦
        absurd (ground (arith, h.0, free, ap (λ x. lookup x m) ((same_iff key entry.0).0 here)))
    | inr other ↦ (rw other h.0, found_later key v m rest free h.1)
  ]

  -- Each entry is found under its key.
  pub Unique-found : (m : Dict V) → Unique m → All (λ entry. lookup entry.0 m ≡ some entry.1) m
  unfolding lookup
  Unique-found [] h = tt
  Unique-found (entry ∷ m) h =
      (rw (same_refl entry.0) refl, found_later entry.0 entry.1 m m h.0 (Unique-found m h.1))

  -- A value that is put in for one with the same image leaves the images in their order.
  pub map-insert {κ} :
      {W : Type κ} (f : V → W) (key : Bytes) (v w : V) (m : Dict V)
      → lookup key m ≡ some v
      → f w ≡ f v
      → map (λ entry. f entry.1) (insert key w m) ≡ map (λ entry. f entry.1) m
  unfolding insert lookup
  map-insert f key v w [] h e = absurd cc
  map-insert f key v w (entry ∷ m) h e = elim (Bool-cases (same entry.0 key)) [
    | inl here ↦
        let found : lookup key (entry ∷ m) ≡ some entry.1 = rw here refl in
        let it : entry.1 ≡ v = ground (arith, sym found ∙ h) in
        rw here (ap (λ x. x ∷ map (λ entry. f entry.1) m) (e ∙ ap f (sym it)))
    | inr other ↦
        let later : lookup key (entry ∷ m) ≡ lookup key m = rw other refl in
        rw other (ap (λ xs. f entry.1 ∷ xs) (map-insert f key v w m (sym later ∙ h) e))
  ]

module _ {ℓ κ} {V : Type ℓ} (P : Bytes × V → Type κ) where
  pub All-insert :
      (key : Bytes) (v : V) (m : Dict V) → P (key, v) → All P m → All P (insert key v m)
  unfolding insert
  All-insert key v [] p h = (p, tt)
  All-insert key v (entry ∷ m) p h = elim (Bool-cases (same entry.0 key)) [
    | inl here ↦ rw here (p, h.1)
    | inr other ↦ rw other (h.0, All-insert key v m p h.1)
  ]

  pub All-delete : (key : Bytes) (m : Dict V) → All P m → All P (delete key m)
  unfolding delete
  All-delete key [] h = tt
  All-delete key (entry ∷ m) h = elim (Bool-cases (same entry.0 key)) [
    | inl here ↦ rw here (All-delete key m h.1)
    | inr other ↦ rw other (h.0, All-delete key m h.1)
  ]

  pub All-lookup : (key : Bytes) (v : V) (m : Dict V) → All P m → lookup key m ≡ some v → P (key, v)
  unfolding lookup
  All-lookup key v [] h e = absurd cc
  All-lookup key v (entry ∷ m) h e = elim (Bool-cases (same entry.0 key)) [
    | inl here ↦
        let found : lookup key (entry ∷ m) ≡ some entry.1 = rw here refl in
        let it : entry.1 ≡ v = ground (arith, sym found ∙ e) in
        subst (λ x. P (x, v)) ((same_iff entry.0 key).0 here) (subst (λ x. P (entry.0, x)) it h.0)
    | inr other ↦
        let later : lookup key (entry ∷ m) ≡ lookup key m = rw other refl in
        All-lookup key v m h.1 (sym later ∙ e)
  ]
