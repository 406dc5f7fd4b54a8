-- ===== src/Database/Effects.antt =====
-- internal/database/database.go: the methods of `DB` on a whole database: what is read back, what
-- reaches the disk and the hub, and what an error leaves.
use firego.Base.{
  ◌≡◌, refl, sym, ap, ◌∙◌, subst, Bool, true, false, Option, none, some, List, [], ◌∷◌, ◌++◌,
  append_assoc, append-nil, Bytes, codes, trim, trim_right, ◌>>=◌, All, arith,
}
use firego.Json.{fields_of, encode_map, Json, Fields, null, obj, get_field, holds}
use firego.Paths.{slash, split_path, split_path-path_of, path_of, IsSegment, trim_right-path_of}
use firego.Realtime.Hub.{Event, Hub, publish}
use firego.Database.Tree.{set_at, update_at, delete_at, deep_copy, get_at}
use firego.Database.Laws.{
  deep_copy_same, get-set_at, get-set_at-Parts, get-update_at, UniqueFields, or_else, Parts,
}
use firego.Database.Deletion.{get-delete_at, get-delete_at-Parts}
use firego.Database.Store.{Db, new, publish_change, commit, get, set, update, delete, push_at}

root-publish_change :
    (kind path : Bytes) (payload : Json) (db : Db)
    → (publish_change kind path payload db).root ≡ db.root
unfolding publish_change
root-publish_change kind path payload db = ground arith

file-publish_change :
    (kind path : Bytes) (payload : Json) (db : Db)
    → (publish_change kind path payload db).file ≡ db.file
unfolding publish_change
file-publish_change kind path payload db = ground arith

-- The tree in memory is the changed one, also if the save fails.
root-commit :
    (disk : Bool) (kind path : Bytes) (payload : Json) (root : Fields) (db : Db)
    → (commit disk kind path payload root db).1.root ≡ root
unfolding commit
root-commit true kind path payload root db = root-publish_change kind path payload _
root-commit false kind path payload root db = refl

copied : (o : Option Json) → (o >>= λ v. some (deep_copy v)) ≡ o
copied none = refl
copied (some v) = ap some (deep_copy_same v)

get_lem : (path : Bytes) (db : Db) → get path db ≡ get_at (split_path path) (obj db.root)
unfolding get
get_lem path db = copied (get_at (split_path path) (obj db.root))

-- What `Set` writes at a path below the root is what `Get` then finds there and below, whether or
-- not the save succeeds.
pub get-set :
    (path q : Bytes) (k : Bytes) (segs more : List Bytes) (v : Json) (disk : Bool) (db : Db)
    → split_path path ≡ k ∷ segs
    → split_path q ≡ (k ∷ segs) ++ more
    → get q (set path v disk db).1 ≡ get_at more v
unfolding set
get-set path q k segs more v disk db e eq =
    rw (get_lem, root-commit disk, eq, e) (get-set_at k segs more v db.root)

-- `Set` leaves what is at a path that parts from its own as it is.
pub get-set-Parts :
    (path q : Bytes) (v : Json) (disk : Bool) (db : Db)
    → Parts (split_path path) (split_path q)
    → get q (set path v disk db).1 ≡ get q db
unfolding set
get-set-Parts path q v disk db d =
    rw (get_lem q (set path v disk db).1, root-commit disk, get_lem q db)
      (get-set_at-Parts (split_path path) (split_path q) v db.root d)

-- After `Delete` at a path below the root `Get` finds nothing there nor below, and what it finds at
-- a path that parts from that one is what it was.
pub get-delete :
    (path q : Bytes) (k : Bytes) (segs more : List Bytes) (disk : Bool) (db : Db)
    → split_path path ≡ k ∷ segs
    → split_path q ≡ (k ∷ segs) ++ more
    → get q (delete path disk db).1 ≡ none
unfolding delete
get-delete path q k segs more disk db e eq =
    rw (get_lem, root-commit disk, eq, e) (get-delete_at k segs more db.root)

-- `Delete` leaves what is at a path that parts from its own as it is.
pub get-delete-Parts :
    (path q : Bytes) (disk : Bool) (db : Db)
    → Parts (split_path path) (split_path q)
    → get q (delete path disk db).1 ≡ get q db
unfolding delete
get-delete-Parts path q disk db d =
    rw (get_lem q (delete path disk db).1, root-commit disk, get_lem q db)
      (get-delete_at-Parts (split_path path) (split_path q) db.root d)

-- After `Update` at a path below the root, `Get` finds each of the fields with its value, and each
-- other child of the path as it was, if it held an object, and else nothing.
pub get-update :
    (path q r : Bytes) (k j : Bytes) (segs more : List Bytes) (value : Option Fields) (disk : Bool)
    (db : Db)
    → UniqueFields (fields_of value)
    → split_path path ≡ k ∷ segs
    → split_path q ≡ (k ∷ segs) ++ (j ∷ more)
    → split_path r ≡ (k ∷ segs) ++ (j ∷ [])
    → get q (update path value disk db).1
      ≡ (or_else (get_field j (fields_of value)) (get r db) >>= get_at more)
unfolding update
get-update path q r k j segs more value disk db u e eq er =
    rw (get_lem q (update path value disk db).1, root-commit disk, get_lem r db, e, eq, er)
      (get-update_at k j segs more (fields_of value) db.root u)

-- A call that changes the tree.
pub data Mutation : Type 0 where
  sets : Bytes → Json → Mutation
  updates : Bytes → Option Fields → Mutation
  deletes : Bytes → Mutation

unfoldable pub mutate : Mutation → Bool → Db → Bool × Db
unfolding set update delete
mutate (sets path v) disk db = set path v disk db
mutate (updates path m) disk db = update path m disk db
mutate (deletes path) disk db = delete path disk db

-- The tree that a mutation makes, and what it tells the hub.
abbrev pub changed : Mutation → Fields → Fields
changed (sets path v) root = set_at (split_path path) v root
changed (updates path m) root = update_at (split_path path) (fields_of m) root
changed (deletes path) root = delete_at (split_path path) root

abbrev pub event_of : Mutation → Event
event_of (sets path v) = record { kind = codes "put"; path = slash ∷ trim slash path; payload = v }
event_of (updates path m) = record {
  kind = codes "patch";
  path = slash ∷ trim slash path;
  payload = encode_map m;
}
event_of (deletes path) = record {
  kind = codes "delete";
  path = slash ∷ trim slash path;
  payload = null;
}

abbrev told : Event → Option Hub → Option Hub
told ev none = none
told ev (some hub) = some (publish ev hub)

told-publish_change :
    (kind path : Bytes) (payload : Json) (db : Db)
    → publish_change kind path payload db ≡ record db {
      hub = told (record { kind = kind; path = slash ∷ trim slash path; payload = payload }) db.hub;
    }
unfolding publish_change
told-publish_change kind path payload db = ground arith

-- A mutation that is saved changes the tree, the file and the hub together, and one that is not
-- changes the tree alone, and returns an error.
pub mutate_lem :
    (m : Mutation) (db : Db)
    → (mutate m true db ≡ (
      true,
      record {
        root = changed m db.root;
        file = holds (obj (changed m db.root));
        hub = told (event_of m) db.hub;
      },
    ))
      × (mutate m false db ≡ (false, record db { root = changed m db.root }))
unfolding mutate
mutate_lem (sets path v) db = (ap (λ d. (true, d)) (told-publish_change _ path v _), refl)
mutate_lem (updates path m) db =
    (ap (λ d. (true, d)) (told-publish_change _ path (encode_map m) _), refl)
mutate_lem (deletes path) db = (ap (λ d. (true, d)) (told-publish_change _ path null _), refl)

-- What happened to a database before: mutations, each saved or not.
unfoldable pub run : List (Mutation × Bool) → Db → Db
unfolding mutate
run [] db = db
run ((m, disk) ∷ ms) db = run ms (mutate m disk db).1

-- After any history, a mutation that is saved makes the file the whole tree in memory, also with
-- what earlier mutations failed to save: a database that is opened on the file answers every `Get`
-- as the running one does.
pub new-run :
    (ms : List (Mutation × Bool)) (m : Mutation) (db : Db) (hub : Option Hub)
    → (db' : Db) × (new (mutate m true (run ms db)).1.file hub ≡ some db')
      × ((q : Bytes) → get q db' ≡ get q (mutate m true (run ms db)).1)
new-run ms m db hub =
    let now = run ms db in
    let root = changed m now.root in
    (
      record { root = root; file = holds (obj root); hub = hub },
      rw (mutate_lem m now).0 (unfold new in refl),
      λ q. rw (mutate_lem m now).0 (get_lem q _ ∙ sym (get_lem q _)),
    )

path_of-child :
    (segs : List Bytes) (key : Bytes) → path_of segs ++ slash ∷ key ≡ path_of (segs ++ key ∷ [])
path_of-child [] key = ap (λ r. slash ∷ r) (sym (append-nil key))
path_of-child (x ∷ segs) key =
    ap (λ r. slash ∷ r)
      (append_assoc x (path_of segs) (slash ∷ key) ∙ ap (λ r. x ++ r) (path_of-child segs key))

All-append :
    (segs : List Bytes) (key : Bytes)
    → All IsSegment segs
    → IsSegment key
    → All IsSegment (segs ++ key ∷ [])
All-append [] key h hk = (hk, tt)
All-append (x ∷ segs) key h hk = (h.0, All-append segs key h.1 hk)

get-set_at_end :
    (segs : List Bytes) (key : Bytes) (v : Json) (root : Fields)
    → get_at (segs ++ key ∷ []) (obj (set_at (segs ++ key ∷ []) v root)) ≡ some v
unfolding get_at
get-set_at_end [] key v root = get-set_at key [] [] v root
get-set_at_end (x ∷ segs) key v root =
    subst (λ p. get_at p (obj (set_at (x ∷ (segs ++ key ∷ [])) v root)) ≡ some v)
      (append-nil (x ∷ (segs ++ key ∷ []))) (get-set_at x (segs ++ key ∷ []) [] v root)

root_of_set :
    (path : Bytes) (v : Json) (disk : Bool) (db : Db)
    → (set path v disk db).1.root ≡ set_at (split_path path) v db.root
unfolding set
root_of_set path v disk db = root-commit disk (codes "put") path v _ db

push_at_root :
    (segs : List Bytes) (key : Bytes) (v : Json) (disk : Bool) (db : Db)
    → All IsSegment segs
    → IsSegment key
    → (push_at key (path_of segs) v disk db).1.root ≡ set_at (segs ++ key ∷ []) v db.root
unfolding push_at
push_at_root segs key v disk db hs hk =
    root_of_set (trim_right slash (path_of segs) ++ slash ∷ key) v disk db
    ∙ ap (λ p. set_at p v db.root)
        (ap split_path
            (ap (λ p. p ++ slash ∷ key) (trim_right-path_of [] segs tt hs) ∙ path_of-child segs key)
          ∙ split_path-path_of (segs ++ key ∷ []) (All-append segs key hs hk))

-- `Push` under a path puts the value at a new child of it with the generated key.
pub get-push_at :
    (segs : List Bytes) (key : Bytes) (v : Json) (disk : Bool) (db : Db)
    → All IsSegment segs
    → IsSegment key
    → get (path_of (segs ++ key ∷ [])) (push_at key (path_of segs) v disk db).1 ≡ some v
get-push_at segs key v disk db hs hk =
    rw
      (
        get_lem,
        push_at_root segs key v disk db hs hk,
        split_path-path_of (segs ++ key ∷ []) (All-append segs key hs hk),
      )
      (get-set_at_end segs key v db.root)
