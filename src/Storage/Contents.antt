-- ===== src/Storage/Contents.antt =====
-- internal/storage/storage.go: what is read back after `Put` and `Delete`.
use firego.Base.{
  ℕ, ◌≡◌, refl, sym, ap, ◌∙◌, Bool, true, false, Bool-cases, Option, some, Bytes, lookup, insert,
  lookup-insert, same, is_empty, if◌then◌else◌, ◌⊎◌, inl, inr, arith,
}
use firego.Storage.Names.{sanitize}
use firego.Storage.Store.{
  Object, Store, StorageError, SaveMeta, meta_saved, meta_failed, Copy, copied, copy_failed, put,
  put_copied, opened, open_object,
}

abbrev answer : Object → StorageError ⊎ Object
answer o = inr o

abbrev Put : Bytes → Bytes → Object → Store → Store → Type 0
Put name content obj s s' =
    (s'.meta ≡ insert name obj s.meta) × (s'.objects ≡ insert name content s.objects)

obj_inj : (o p : Object) → answer o ≡ answer p → o ≡ p
obj_inj o p h = ground (arith, h)

put_copied_inv :
    (copy : Copy) (name content_type content : Bytes) (now : ℕ) (save : SaveMeta) (s : Store)
    (obj : Object)
    → (put_copied copy name content_type content now save s).0 ≡ inr obj
    → Put name content obj s (put_copied copy name content_type content now save s).1
put_copied_inv (copy_failed part) name content_type content now save s obj h = absurd cc
put_copied_inv copied name content_type content now (meta_failed left) s obj h = absurd cc
put_copied_inv copied name content_type content now meta_saved s obj h =
    (ap (λ o. insert name o s.meta) (obj_inj _ obj h), refl)

put_inv :
    (text content_type content : Bytes) (now : ℕ) (copy : Copy) (save : SaveMeta) (s : Store)
    (obj : Object)
    → (put text content_type content now copy save s).0 ≡ inr obj
    → Put (sanitize text) content obj s (put text content_type content now copy save s).1
unfolding put
put_inv text content_type content now copy save s obj h =
    elim (Bool-cases (is_empty (sanitize text))) [
      | inl nothing ↦ absurd (ground (arith, nothing))
      | inr full ↦
          let same_end : put text content_type content now copy save s
              ≡ put_copied copy (sanitize text) content_type content now save s =
            rw full refl in
          let done =
            put_copied_inv copy (sanitize text) content_type content now save s obj
              (ap (λ r. r.0) (sym same_end) ∙ h) in
          (ap (λ r. r.1.meta) same_end ∙ done.0, ap (λ r. r.1.objects) same_end ∙ done.1)
    ]

open_lem :
    (text : Bytes) (s : Store)
    → open_object text s ≡ opened (lookup (sanitize text) s.meta) (lookup (sanitize text) s.objects)
unfolding open_object
open_lem text s = refl

opened_if :
    (same_name : Bool) (obj : Object) (content : Bytes) (o : Option Object) (file : Option Bytes)
    → opened (if same_name then some obj else o) (if same_name then some content else file)
      ≡ (if same_name then inr (obj, content) else opened o file)
opened_if true obj content o file = refl
opened_if false obj content o file = refl

-- After a `Put` that returns no error, `Open` gives the object and its bytes under each name that
-- sanitizes to the same one, and what it gave before under any other.
pub open_object-put :
    (text text' content_type content : Bytes) (now : ℕ) (copy : Copy) (save : SaveMeta) (s : Store)
    (obj : Object)
    → (put text content_type content now copy save s).0 ≡ inr obj
    → open_object text' (put text content_type content now copy save s).1
      ≡ (if same (sanitize text) (sanitize text') then inr (obj, content) else open_object text' s)
open_object-put text text' content_type content now copy save s obj h =
    let stored = put_inv text content_type content now copy save s obj h in
    let name = sanitize text in
    let other = sanitize text' in
    let s' = (put text content_type content now copy save s).1 in
    open_lem text' s'
    ∙ ap (λ m. opened (lookup other m) (lookup other s'.objects)) stored.0
    ∙ ap (λ f. opened (lookup other (insert name obj s.meta)) (lookup other f)) stored.1
    ∙ rw (lookup-insert name other obj s.meta, lookup-insert name other content s.objects)
        (opened_if (same name other) obj content (lookup other s.meta) (lookup other s.objects))
    ∙ ap (λ o. if same name other then inr (obj, content) else o) (sym (open_lem text' s))
