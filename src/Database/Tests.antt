-- ===== src/Database/Tests.antt =====
-- Runs of the database, most of them those of internal/database/database_test.go.
use firego.Base.{
  ◌≡◌, refl, true, false, Bool, none, some, List, [], ◌∷◌, Bytes, codes, split, arith,
}
use firego.Json.{null, num, str, obj, end, field, absent}
use firego.Paths.{split_path}
use firego.Realtime.Hub.{new_hub}
use firego.Database.Tree.{get_at}
use firego.Database.PushId.{Generator, generate_push_id}
use firego.Database.Order.{less, generate_push_id_ascends}
use firego.Database.Store.{Db, new, get, set}
use firego.Database.Leaves.{act_all}
use firego.Database.Refinement.{leaves, leaves-run}
use firego.Database.Effects.{get-set, Mutation, sets, deletes, mutate, run, new-run}

abbrev fresh : Db
fresh = record { root = end; file = absent; hub = some new_hub }

abbrev config : Db
config = record fresh {
  root =
      field (codes "config") (obj (field (codes "a") (num 1) (field (codes "b") (num 2) end))) end;
}

segments : split_path (codes "users/alice/name") ≡ codes "users" ∷ codes "alice" ∷ codes "name" ∷ []
unfolding split_path split
segments = refl

get-set_example :
    get
      (codes "users/alice/name")
      (set (codes "users/alice/name") (str (codes "Alice")) true fresh).1
    ≡ get_at [] (str (codes "Alice"))
get-set_example =
    get-set (codes "users/alice/name") (codes "users/alice/name") (codes "users")
      (codes "alice" ∷ codes "name" ∷ []) [] (str (codes "Alice")) true fresh segments segments

abbrev history : List (Mutation × Bool)
history = (sets (codes "a/b") (num 1), false) ∷ (deletes (codes "c"), true) ∷ []

new-run_example :
    (db' : Db) × (new (mutate (sets (codes "x") null) true (run history fresh)).1.file none
      ≡ some db')
    × ((q : Bytes) → get q db' ≡ get q (mutate (sets (codes "x") null) true (run history fresh)).1)
new-run_example = new-run history (sets (codes "x") null) fresh none

abbrev used : Generator
used = record { last_time = 5; last_rand = 1 ∷ 63 ∷ [] }

suffix : (generate_push_id 5 [] used).1.last_rand ≡ 2 ∷ 0 ∷ []
unfolding generate_push_id
suffix = refl

generate_push_id_ascends_example :
    less (generate_push_id 5 [] used).0 (generate_push_id 5 [] (generate_push_id 5 [] used).1).0
    ≡ true
unfolding generate_push_id
generate_push_id_ascends_example =
    generate_push_id_ascends 5 5 [] [] used (omega arith) (omega arith) (omega arith) (omega arith)

leaves-run_example :
    leaves (run history fresh) (codes "a" ∷ codes "b" ∷ [])
    ≡ act_all history (leaves fresh) (codes "a" ∷ codes "b" ∷ [])
leaves-run_example = leaves-run history fresh (codes "a" ∷ codes "b" ∷ []) (tt, (tt, tt))
