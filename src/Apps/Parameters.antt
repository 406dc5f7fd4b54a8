-- ===== src/Apps/Parameters.antt =====
-- internal/apps/remoteconfig.go: what the changes of a configuration leave in memory and on disk.
use firego.Base.{
  ◌≡◌, refl, All, List, [], ◌∷◌, ap, sym, ◌∙◌, arith, if◌then◌else◌, Option, none, some, Bytes,
  same,
}
use firego.Json.{
  fields_of, encode_map, Json, Fields, end, field, get_field, merge_fields, get_field-del_field,
  File, holds, Write, written, failed,
}
use firego.Database.Laws.{UniqueFields, or_else, get_field-merge}
use firego.Apps.RemoteConfig.{
  RemoteConfig, Outcome, done, panicked, new_remote_config, get, persist, without, set, merge,
  merge_into, delete_key,
}

-- A call that changes a configuration.
pub data Change : Type 0 where
  sets : Option Fields → Change
  merges : Fields → Change
  deletes : Bytes → Change

unfoldable pub change : Change → Write → RemoteConfig → Outcome × RemoteConfig
unfolding set merge delete_key
change (sets params) write rc = set params write rc
change (merges updates) write rc = merge updates write rc
change (deletes key) write rc = delete_key key write rc

reload_lem :
    (o : Option Fields)
    → new_remote_config (holds (encode_map o))
      ≡ some (record { params = o; file = holds (encode_map o) })
unfolding new_remote_config
reload_lem none = refl
reload_lem (some m) = refl

persist_reload :
    (write : Write) (rc : RemoteConfig)
    → (persist write rc).0 ≡ done
    → new_remote_config (persist write rc).1.file ≡ some (persist write rc).1
persist_reload written rc h = reload_lem rc.params
persist_reload (failed left) rc h = absurd cc

merge_reload :
    (o : Option Fields) (updates : Fields) (write : Write) (rc : RemoteConfig)
    → (merge_into o updates write rc).0 ≡ done
    → new_remote_config (merge_into o updates write rc).1.file
      ≡ some (merge_into o updates write rc).1
merge_reload none end write rc h = persist_reload write rc h
merge_reload none (field k v m) write rc h = absurd cc
merge_reload (some p) updates write rc h =
    persist_reload write (record rc { params = some (merge_fields updates p) }) h

-- A change that ends without an error or a panic is what `newRemoteConfig` loads from the file.
new_remote_config-change :
    (c : Change) (write : Write) (rc : RemoteConfig)
    → (change c write rc).0 ≡ done
    → new_remote_config (change c write rc).1.file ≡ some (change c write rc).1
unfolding change set merge delete_key
new_remote_config-change (sets params) written rc h = reload_lem params
new_remote_config-change (sets params) (failed left) rc h = absurd cc
new_remote_config-change (merges updates) write rc h = merge_reload rc.params updates write rc h
new_remote_config-change (deletes key) write rc h =
    persist_reload write (record rc { params = without key rc.params }) h

get-persist : (write : Write) (rc : RemoteConfig) → get (persist write rc).1 ≡ get rc
unfolding get
get-persist written rc = refl
get-persist (failed left) rc = refl

get-without :
    (key j : Bytes) (o : Option Fields)
    → get_field j (fields_of (without key o))
      ≡ (if same key j then none else get_field j (fields_of o))
get-without key j none = unfold get_field in ground arith
get-without key j (some p) = get_field-del_field key j p

get-merged :
    (rc : RemoteConfig) (p updates : Fields) (j : Bytes) (write : Write)
    → rc.params ≡ some p
    → UniqueFields updates
    → get_field j (get (merge updates write rc).1)
      ≡ or_else (get_field j updates) (get_field j (get rc))
unfolding merge get
get-merged rc p updates j write e u =
    ap (λ o. get_field j (get (merge_into o updates write rc).1)) e
    ∙ ap (get_field j) (get-persist write (record rc { params = some (merge_fields updates p) }))
    ∙ get_field-merge updates p j u
    ∙ ap (λ o. or_else (get_field j updates) (get_field j (fields_of o))) (sym e)

-- What a client finds under a key afterwards. `Set` replaces all parameters if the write succeeds
-- and changes nothing otherwise; `Merge` into a map that is not nil and `DeleteKey` change exactly
-- the keys they name, also if the write fails.
pub get-change :
    (rc : RemoteConfig) (params : Option Fields) (p updates : Fields) (key j : Bytes)
    (write : Write) (left : File)
    → rc.params ≡ some p
    → UniqueFields updates
    → (get (change (sets params) written rc).1 ≡ fields_of params)
      × (get (change (sets params) (failed left) rc).1 ≡ get rc)
      × (get_field j (get (change (merges updates) write rc).1)
          ≡ or_else (get_field j updates) (get_field j (get rc)))
      × (get_field j (get (change (deletes key) write rc).1)
          ≡ (if same key j then none else get_field j (get rc)))
unfolding change set merge delete_key get
get-change rc params p updates key j write left e u = (
  refl,
  refl,
  get-merged rc p updates j write e u,
  ap (get_field j) (get-persist write (record rc { params = without key rc.params }))
      ∙ get-without key j rc.params,
)

unfoldable pub run : List (Change × Write) → RemoteConfig → RemoteConfig
unfolding change
run [] rc = rc
run ((c, write) ∷ cs) rc = run cs (change c write rc).1

-- A change that brings no map of its own.
abbrev pub BringsNone : Change × Write → Type 0
BringsNone (sets (some p), write) = ⊥
BringsNone _ = Unit

persist_params : (write : Write) (rc : RemoteConfig) → (persist write rc).1.params ≡ rc.params
persist_params written rc = refl
persist_params (failed left) rc = refl

merge_into_nil :
    (updates : Fields) (write : Write) (rc : RemoteConfig)
    → rc.params ≡ none
    → (merge_into none updates write rc).1.params ≡ none
merge_into_nil end write rc e = persist_params write rc ∙ e
merge_into_nil (field k v m) write rc e = e

change_nil :
    (c : Change) (write : Write) (rc : RemoteConfig)
    → BringsNone (c, write)
    → rc.params ≡ none
    → (change c write rc).1.params ≡ none
unfolding change set merge delete_key
change_nil (sets (some p)) write rc h e = absurd h
change_nil (sets none) written rc h e = refl
change_nil (sets none) (failed left) rc h e = e
change_nil (merges updates) write rc h e =
    ap (λ o. (merge_into o updates write rc).1.params) e ∙ merge_into_nil updates write rc e
change_nil (deletes key) write rc h e =
    persist_params write (record rc { params = without key rc.params }) ∙ ap (without key) e

run_nil :
    (cs : List (Change × Write)) (rc : RemoteConfig)
    → All BringsNone cs
    → rc.params ≡ none
    → (run cs rc).params ≡ none
unfolding run
run_nil [] rc h e = e
run_nil ((c, write) ∷ cs) rc h e =
    run_nil cs (change c write rc).1 h.1 (change_nil c write rc h.0 e)

-- Once a nil map was written, which is the JSON value null, every merge of any parameter panics and
-- changes nothing, after whatever other changes, until a `Set` brings a map again.
pub change-run :
    (rc : RemoteConfig) (cs : List (Change × Write)) (k : Bytes) (v : Json) (m : Fields)
    (write : Write)
    → All BringsNone cs
    → change (merges (field k v m)) write (run cs (change (sets none) written rc).1)
      ≡ (panicked, run cs (change (sets none) written rc).1)
unfolding change set merge
change-run rc cs k v m write h =
    let rc' = run cs (change (sets none) written rc).1 in
    ap (λ o. merge_into o (field k v m) write rc')
      (run_nil cs (change (sets none) written rc).1 h refl)
