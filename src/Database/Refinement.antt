-- ===== src/Database/Refinement.antt =====
-- internal/database/database.go: histories of a database, by their leaves.
use firego.Base.{◌≡◌, refl, ap, ◌∙◌, Bool, true, false, List, [], ◌∷◌, Bytes, All}
use firego.Json.{Fields, obj, fields_of}
use firego.Paths.{split_path}
use firego.Database.Laws.{}
use firego.Database.Store.{Db}
use firego.Database.Effects.{Mutation, sets, updates, deletes, mutate, changed, mutate_lem, run}
use firego.Database.Leaves.{
  place, leaf_at, set_leaf, update_leaf, delete_leaf, written, Leaves, act, act_all, HasUnique,
}
use firego.Database.Placed.{leaf-set_at, leaf-delete_at, leaf-update_at}

-- The leaves of a database.
abbrev pub leaves : Db → Leaves
leaves db q = leaf_at q (obj db.root)

root-mutate : (m : Mutation) (disk : Bool) (db : Db) → (mutate m disk db).1.root ≡ changed m db.root
root-mutate m true db = ap (λ r. r.1.root) (mutate_lem m db).0
root-mutate m false db = ap (λ r. r.1.root) (mutate_lem m db).1

leaf-changed :
    (m : Mutation) (q : List Bytes) (root : Fields)
    → HasUnique m
    → leaf_at q (obj (changed m root)) ≡ act m (λ p. leaf_at p (obj root)) q
unfolding act
leaf-changed (sets path v) q root u = leaf-set_at (split_path path) q v root
leaf-changed (updates path m) q root u = leaf-update_at (split_path path) q (fields_of m) root u
leaf-changed (deletes path) q root u = leaf-delete_at (split_path path) q root

act_same :
    (m : Mutation) (l l' : Leaves)
    → ((q : List Bytes) → l q ≡ l' q)
    → (q : List Bytes) → act m l q ≡ act m l' q
unfolding act
act_same (sets path v) l l' e q =
    ap (set_leaf (place (split_path path) q) (written (split_path path) v)) (e q)
act_same (updates path m) l l' e q =
    ap (update_leaf (place (split_path path) q) (fields_of m)) (e q)
act_same (deletes path) l l' e q = ap (delete_leaf (place (split_path path) q)) (e q)

act_all_same :
    (ms : List (Mutation × Bool)) (l l' : Leaves)
    → ((q : List Bytes) → l q ≡ l' q)
    → (q : List Bytes) → act_all ms l q ≡ act_all ms l' q
unfolding act_all
act_all_same [] l l' e q = e q
act_all_same ((m, disk) ∷ ms) l l' e q = act_all_same ms (act m l) (act m l') (act_same m l l' e) q

-- After any history of Set, Update and Delete, saved or not, the leaves of the database are those
-- that the specification gives: each operation changes the leaf at a path only by how that path lies
-- to its own.
pub leaves-run :
    (ms : List (Mutation × Bool)) (db : Db) (q : List Bytes)
    → All (λ step. HasUnique step.0) ms
    → leaves (run ms db) q ≡ act_all ms (leaves db) q
unfolding run act_all
leaves-run [] db q u = refl
leaves-run ((m, disk) ∷ ms) db q u =
    leaves-run ms (mutate m disk db).1 q u.1
    ∙ act_all_same ms (leaves (mutate m disk db).1) (act m (leaves db))
        (λ p.
          ap (λ root. leaf_at p (obj root)) (root-mutate m disk db) ∙ leaf-changed m p db.root u.0)
        q
