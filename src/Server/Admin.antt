-- ===== src/Server/Admin.antt =====
-- internal/server/server.go: the handlers behind the admin key, those of the configuration of an app,
-- and the preflight of CORS.
use firego.Base.{
  not, ◌||◌, Option, none, some, ◌++◌, Bytes, codes, same, is_empty, ◌⊎◌, inl, inr, if◌then◌else◌,
}
use firego.Json.{Json, Fields, obj}
use firego.Jwt.Token.{Codec}
use firego.Rules.Check.{RuleSet, Updated, updated, raw_json, update}
use firego.Apps.RemoteConfig.{
  RemoteConfig, Outcome, done, write_failed, panicked, get, set, merge, delete_key,
}
use firego.Json.{fields_of}
use firego.Apps.Manager.{
  App, Manager, AppError, app_unknown, id_taken, is_protected, get_app, list_apps, create_app,
  delete_app,
}
use firego.Server.Http.{
  Request, Outside, Response, refusal, reply, app_info, app_infos, sdk, dropped, decode_texts,
  decode_map,
}
use firego.Server.Database.{bearer}
use firego.Server.Accounts.{trim_prefix, done_reply}

-- The key that a request shows.
abbrev pub shown_key : Request → Bytes
shown_key req =
    let key = trim_prefix bearer req.authorization in if is_empty key then req.x_admin_key else key

-- `requireAdmin`; `S` is what the handler changes.
unfoldable pub require_admin {ℓ} : {S : Type ℓ} → Bytes → Request → S → Response × S → Response × S
unfolding same
require_admin admin_key req state next =
    if not (same (shown_key req) admin_key) then (refusal 401, state) else next

-- `handleListApps`
abbrev pub handle_list_apps : Manager → Response
handle_list_apps m = app_infos (list_apps m)

abbrev pub create_status : AppError → Response
create_status id_taken = refusal 409
create_status _ = refusal 400

abbrev pub created : (AppError ⊎ App) × Manager → Response × Manager
created (inl e, m) = (create_status e, m)
created (inr a, m) = (app_info 201 a.info, m)

abbrev pub info_of : Option App → Response
info_of none = refusal 404
info_of (some a) = app_info 200 a.info

-- `handleGetApp`
unfoldable pub handle_get_app : Request → Manager → Response
unfolding get_app
handle_get_app req m = info_of (get_app req.app_id m)

abbrev pub delete_status : AppError → Response
delete_status app_unknown = refusal 404
delete_status is_protected = refusal 403
delete_status _ = refusal 500

abbrev pub deleted : Option AppError × Manager → Response × Manager
deleted (none, m) = (done_reply (codes "deleted"), m)
deleted (some e, m) = (delete_status e, m)

module _ (k : Codec) where
  abbrev pub create_with : Option (Bytes × Bytes) → Outside → Manager → Response × Manager
  create_with none out m = (refusal 400, m)
  create_with (some (id, name)) out m =
      created (create_app k id name out.key_bytes out.now out.made out.left out.disk m)

  -- `handleCreateApp`
  unfoldable pub handle_create_app : Request → Outside → Manager → Response × Manager
  unfolding create_app
  handle_create_app req out m =
      create_with (decode_texts (codes "id") (codes "name") req.body) out m

  -- `handleDeleteApp`
  unfoldable pub handle_delete_app : Request → Outside → Manager → Response × Manager
  unfolding delete_app
  handle_delete_app req out m = deleted (delete_app k req.app_id out.left out.disk m)

-- `handleGetRules`, once the app is found.
abbrev pub handle_get_rules : App → Response
handle_get_rules app = reply 200 (raw_json app.rules)

-- An update that is not written is answered like one that is not understood.
abbrev pub update_status : Updated → Response
update_status updated = done_reply (codes "updated")
update_status _ = refusal 400

abbrev pub rules_updated : App → Updated × RuleSet → Response × App
rules_updated app (how, rules) = (update_status how, record app { rules = rules })

abbrev pub put_rules_with : Option Json → Outside → App → Response × App
put_rules_with none out app = (refusal 400, app)
put_rules_with (some j) out app = rules_updated app (update j out.write app.rules)

-- `handlePutRules`, once the app is found.
unfoldable pub handle_put_rules : Request → Outside → App → Response × App
unfolding update
handle_put_rules req out app =
    if not out.read_all then (refusal 500, app) else put_rules_with req.body out app

-- `handleGetRemoteConfig` and `handleClientRemoteConfig`, once the app is found.
unfoldable pub handle_get_remote_config : App → Response
unfolding get
handle_get_remote_config app = reply 200 (obj (get app.remote_config))

abbrev pub outcome_status : Bytes → Outcome → Response
outcome_status key done = done_reply key
outcome_status key write_failed = refusal 500
outcome_status key panicked = dropped

abbrev pub configured : Bytes → App → Outcome × RemoteConfig → Response × App
configured key app (how, rc) = (outcome_status key how, record app { remote_config = rc })

abbrev pub put_config_with : Option (Option Fields) → Outside → App → Response × App
put_config_with none out app = (refusal 400, app)
put_config_with (some params) out app =
    configured (codes "updated") app (set params out.write app.remote_config)

-- `handlePutRemoteConfig`, once the app is found.
unfoldable pub handle_put_remote_config : Request → Outside → App → Response × App
unfolding set
handle_put_remote_config req out app = put_config_with (decode_map req.body) out app

abbrev pub patch_config_with : Option (Option Fields) → Outside → App → Response × App
patch_config_with none out app = (refusal 400, app)
patch_config_with (some updates) out app =
    configured (codes "updated") app (merge (fields_of updates) out.write app.remote_config)

-- `handlePatchRemoteConfig`, once the app is found.
unfoldable pub handle_patch_remote_config : Request → Outside → App → Response × App
unfolding merge
handle_patch_remote_config req out app = patch_config_with (decode_map req.body) out app

-- `handleDeleteRemoteConfigKey`, once the app is found.
unfoldable pub handle_delete_remote_config_key : Request → Outside → App → Response × App
unfolding delete_key
handle_delete_remote_config_key req out app =
    if is_empty req.path
    then (refusal 400, app)
    else configured (codes "deleted") app (delete_key req.path out.write app.remote_config)

abbrev pub scheme : Request → Bytes
scheme req =
    if req.tls || same req.x_forwarded_proto (codes "https") then codes "https" else codes "http"

-- `handleSDKConfig`
unfoldable pub handle_sdk_config : Request → App → Response
handle_sdk_config req app =
    let base = scheme req ++ (codes "://" ++ (req.host ++ (codes "/v1/" ++ app.info.id))) in
    sdk (record {
      info = app.info;
      auth_domain = base ++ codes "/auth";
      database_url = base ++ codes "/db";
      storage_bucket = base ++ codes "/storage";
      stream_url = base ++ codes "/stream";
    })
