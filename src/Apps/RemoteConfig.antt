-- ===== src/Apps/RemoteConfig.antt =====
-- internal/apps/remoteconfig.go: `RemoteConfig` and its methods. The parameters are a Go map that may
-- be nil, which JSON's null makes of it.
use firego.Base.{Option, none, some, Bytes}
use firego.Json.{
  Fields, fields_of, encode_map, null, obj, end, field, del_field, merge_fields, File, absent,
  holds, broken, Write, written, failed,
}

pub record RemoteConfig : Type 0 where
  pub params : Option Fields
  pub file : File

-- How a call ends. A panic is that of a write to a nil map.
pub data Outcome : Type 0 where
  done : Outcome
  write_failed : Outcome
  panicked : Outcome

-- `newRemoteConfig`: `none` is an error.
unfoldable pub new_remote_config : File → Option RemoteConfig
new_remote_config absent = some (record { params = some end; file = absent })
new_remote_config (holds (obj m)) = some (record { params = some m; file = holds (obj m) })
new_remote_config (holds null) = some (record { params = none; file = holds null })
new_remote_config (holds j) = none
new_remote_config broken = none

-- `Get`: a copy, which is never nil.
unfoldable pub get : RemoteConfig → Fields
get rc = fields_of rc.params

-- os.WriteFile of the parameters, in place.
abbrev pub persist : Write → RemoteConfig → Outcome × RemoteConfig
persist written rc = (done, record rc { file = holds (encode_map rc.params) })
persist (failed left) rc = (write_failed, record rc { file = left })

-- `Set`: the map is taken over only once it is written.
unfoldable pub set : Option Fields → Write → RemoteConfig → Outcome × RemoteConfig
set params written rc = (done, record { params = params; file = holds (encode_map params) })
set params (failed left) rc = (write_failed, record rc { file = left })

abbrev pub merge_into : Option Fields → Fields → Write → RemoteConfig → Outcome × RemoteConfig
merge_into none end write rc = persist write rc
merge_into none (field k v m) write rc = (panicked, rc)
merge_into (some p) updates write rc =
    persist write (record rc { params = some (merge_fields updates p) })

-- `Merge`
unfoldable pub merge : Fields → Write → RemoteConfig → Outcome × RemoteConfig
merge updates write rc = merge_into rc.params updates write rc

abbrev pub without : Bytes → Option Fields → Option Fields
without key none = none
without key (some p) = some (del_field key p)

-- `DeleteKey`
unfoldable pub delete_key : Bytes → Write → RemoteConfig → Outcome × RemoteConfig
delete_key key write rc = persist write (record rc { params = without key rc.params })
