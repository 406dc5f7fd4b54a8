-- ===== src/Server/Http.antt =====
-- internal/server/server.go: requests and what answers them. A request comes with its path
-- variables, its headers (empty if missing) and what its body decodes to; the clock, the random
-- bytes and how the calls of the file system end are a record of their own.
use firego.Base.{ℕ, Bool, Option, none, some, List, [], Bytes, ◌>>=◌}
use firego.Json.{Json, Fields, null, str, obj, Write, get_field}
use firego.Realtime.Hub.{Event}
use firego.Auth.Service.{User, Draw}
use firego.Storage.Store.{Object, Copy, SaveMeta, Removal}
use firego.Apps.Manager.{Info, AppFiles}

-- `path` is the variable `path`, `name` or `key`, as the route names it. `body` is what the
-- handler decodes the first eight MiB of the body to, `none` if it fails, and `upload` all its bytes.
pub record Request : Type 0 where
  pub app_id : Bytes
  pub path : Bytes
  pub authorization : Bytes
  pub x_admin_key : Bytes
  pub x_forwarded_for : Bytes
  pub x_forwarded_proto : Bytes
  pub content_type : Bytes
  pub remote_addr : Bytes
  pub host : Bytes
  pub tls : Bool
  pub prefix : Bytes
  pub body : Option Json
  pub upload : Bytes

-- What a handler takes from outside: `now` in nanoseconds, the clock of push keys in milliseconds,
-- and the rest as the methods that the handler calls use it; `read_all` tells whether the body can be
-- read at all.
pub record Outside : Type 0 where
  pub now : ℕ
  pub milli : ℕ
  pub random : List ℕ
  pub draw : Draw
  pub key_bytes : List ℕ
  pub made : Bytes → Bool
  pub left : Option AppFiles
  pub disk : Bool
  pub write : Write
  pub copy : Copy
  pub save : SaveMeta
  pub removal : Removal
  pub read_all : Bool

-- `handleSDKConfig`'s map.
pub record SdkConfig : Type 0 where
  pub info : Info
  pub auth_domain : Bytes
  pub database_url : Bytes
  pub storage_bucket : Bytes
  pub stream_url : Bytes

-- `writeError` and `writeJSON`, with the status and the value that is written; `streaming` is a stream
-- that was opened, with its subscriber and the first event, and `dropped` a panic of the handler.
pub data Response : Type 0 where
  refusal : ℕ → Response
  reply : ℕ → Json → Response
  app_info : ℕ → Info → Response
  app_infos : List Info → Response
  signed_in : ℕ → User → Bytes → Response
  own_account : User → Response
  stored : Object → Response
  objects : List Object → Response
  content : Bytes → Bytes → Response
  sdk : SdkConfig → Response
  streaming : ℕ → Option Event → Response
  no_content : Response
  dropped : Response

-- A field of a body that is decoded to a struct of texts.
abbrev pub text_of : Option Json → Option Bytes
text_of none = some []
text_of (some null) = some []
text_of (some (str s)) = some s
text_of (some _) = none

-- Decode of a struct of two texts: `none` is an error.
abbrev pub decode_texts : Bytes → Bytes → Option Json → Option (Bytes × Bytes)
decode_texts key key' (some (obj m)) = do
  s ← text_of (get_field key m)
  s' ← text_of (get_field key' m)
  some (s, s')
decode_texts key key' (some null) = some ([], [])
decode_texts key key' _ = none

-- Decode of a map, which null leaves nil: `none` is an error.
abbrev pub decode_map : Option Json → Option (Option Fields)
decode_map (some (obj m)) = some (some m)
decode_map (some null) = some none
decode_map _ = none
