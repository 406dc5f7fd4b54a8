-- ===== src/Database/Store.antt =====
-- internal/database/database.go: `DB` and its methods. A save writes a file beside the old one and
-- renames it, so one that fails leaves the old file; whether it succeeds is an argument.
use firego.Base.{
  ℕ, Bool, true, false, Option, none, some, List, ◌∷◌, ◌++◌, Bytes, codes, trim, trim_right,
  if◌then◌else◌, ◌>>=◌,
}
use firego.Json.{fields_of, encode_map, Json, Fields, null, obj, end, File, absent, holds, broken}
use firego.Paths.{slash, split_path}
use firego.Realtime.Hub.{Hub, publish}
use firego.Database.Tree.{set_at, update_at, delete_at, deep_copy, get_at}
use firego.Database.PushId.{Generator, generate_push_id}

pub record Db : Type 0 where
  pub root : Fields
  pub file : File
  pub hub : Option Hub

-- `New` and `load`: `none` is an error. (A text that is empty counts as no file.)
unfoldable pub new : File → Option Hub → Option Db
new absent hub = some (record { root = end; file = absent; hub = hub })
new (holds (obj m)) hub = some (record { root = m; file = holds (obj m); hub = hub })
new (holds null) hub = some (record { root = end; file = holds null; hub = hub })
new (holds v) hub = none
new broken hub = none

abbrev pub save : Bool → Db → Db
save disk db = if disk then record db { file = holds (obj db.root) } else db

-- `publish`
unfoldable pub publish_change : Bytes → Bytes → Json → Db → Db
publish_change kind path payload db = elim db.hub [
  | none ↦ db
  | some hub ↦ record db {
    hub =
        some
          (publish (record { kind = kind; path = slash ∷ trim slash path; payload = payload }) hub);
  }
]

-- How each mutation ends: the tree is changed, then saved; the change is published if the save
-- succeeded, and an error returned otherwise.
unfoldable pub commit : Bool → Bytes → Bytes → Json → Fields → Db → Bool × Db
unfolding publish_change
commit disk kind path payload root db =
    let db' = save disk (record db { root = root }) in
    if disk then (true, publish_change kind path payload db') else (false, db')

-- `Get`: `none` is ErrNotFound.
unfoldable pub get : Bytes → Db → Option Json
unfolding get_at deep_copy split_path
get path db = do v ← get_at (split_path path) (obj db.root); some (deep_copy v)

-- `Set`, `Update` and `Delete`: true if they return no error. The map that `Update` is given may be nil.
unfoldable pub set : Bytes → Json → Bool → Db → Bool × Db
unfolding commit set_at split_path
set path value disk db =
    commit disk (codes "put") path value (set_at (split_path path) value db.root) db

unfoldable pub update : Bytes → Option Fields → Bool → Db → Bool × Db
unfolding commit update_at split_path
update path value disk db =
    commit disk (codes "patch") path (encode_map value)
      (update_at (split_path path) (fields_of value) db.root) db

unfoldable pub delete : Bytes → Bool → Db → Bool × Db
unfolding commit delete_at split_path
delete path disk db =
    commit disk (codes "delete") path null (delete_at (split_path path) db.root) db

-- `Push`, with the key that was generated: the key is returned if there is no error.
unfoldable pub push_at : Bytes → Bytes → Json → Bool → Db → Option Bytes × Db
unfolding set
push_at key path value disk db =
    let (saved, db') = set (trim_right slash path ++ slash ∷ key) value disk db in
    (if saved then some key else none, db')

unfoldable pub push :
    ℕ → List ℕ → Bytes → Json → Bool → Generator → Db → Option Bytes × Generator × Db
unfolding generate_push_id push_at
push now random path value disk g db =
    let (key, g') = generate_push_id now random g in
    let (reply, db') = push_at key path value disk db in (reply, g', db')
