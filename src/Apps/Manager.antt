-- ===== src/Apps/Manager.antt =====
-- internal/apps/manager.go: `Manager` and its methods. The clock, the random bytes and how the calls
-- of the file system end are arguments; what the directory of an app holds is a record of files.
use firego.Base.{
  ℕ, Bool, true, false, not, ◌&&◌, ◌||◌, Option, none, some, List, [], ◌∷◌, ◌++◌, Bytes, codes, map,
  same, is_empty, length, leb, in_range, ◌==◌, Dict, lookup, insert, delete, ◌>>=◌, ◌⊎◌, inl, inr,
  if◌then◌else◌,
}
use firego.Json.{File, absent as no_json}
use firego.Realtime.Hub.{new_hub}
use firego.Jwt.Token.{Codec, unix}
use firego.Auth.Email.{trim_space, random_hex}
use firego.Auth.Service.{Accounts, Service, absent as no_accounts, new as new_auth}
use firego.Database.Store.{Db, new as new_db}
use firego.Storage.Store.{MetaFile, Store, absent as no_meta, new as new_store}
use firego.Rules.Check.{RuleSet, new as new_rules}
use firego.Apps.RemoteConfig.{RemoteConfig, new_remote_config}

pub record Info : Type 0 where
  pub id : Bytes
  pub name : Bytes
  pub api_key : Bytes
  pub created_at : ℕ

-- `App`. Its hub is the one that its database publishes to.
pub record App : Type 0 where
  pub info : Info
  pub auth : Service
  pub db : Db
  pub store : Store
  pub rules : RuleSet
  pub remote_config : RemoteConfig

-- The directory of an app.
pub record AppFiles : Type 0 where
  pub users_json : Accounts
  pub database_json : File
  pub metadata_json : MetaFile
  pub object_files : Dict Bytes
  pub rules_json : File
  pub remote_config_json : File

abbrev pub no_files : AppFiles
no_files = record {
  users_json = no_accounts;
  database_json = no_json;
  metadata_json = no_meta;
  object_files = [];
  rules_json = no_json;
  remote_config_json = no_json;
}

-- The files of a running app.
abbrev pub files_of : App → AppFiles
files_of a = record {
  users_json = a.auth.file;
  database_json = a.db.file;
  metadata_json = a.store.meta_file;
  object_files = a.store.objects;
  rules_json = a.rules.file;
  remote_config_json = a.remote_config.file;
}

-- `apps.json`
pub data Registry : Type 0 where
  no_registry : Registry
  lists : List Info → Registry
  bad_registry : Registry

-- `Manager`, with the registry on disk and the directories that no running app uses.
pub record Manager : Type 0 where
  pub apps : Dict App
  pub registry : Registry
  pub dirs : Dict AppFiles
  pub master_secret : Bytes

pub data AppError : Type 0 where
  app_unknown : AppError
  id_taken : AppError
  is_protected : AppError
  invalid_id : AppError
  app_failed : AppError

abbrev pub is_id_start : ℕ → Bool
is_id_start c = in_range b'a' b'z' c || in_range b'0' b'9' c

abbrev pub all_id_bytes : Bytes → Bool
all_id_bytes [] = true
all_id_bytes (c ∷ s) = let rest = all_id_bytes s in (is_id_start c || c == b'-') && rest

-- validID.MatchString
unfoldable pub valid_id : Bytes → Bool
valid_id [] = false
valid_id (c ∷ s) = is_id_start c && leb 2 (length s) && leb (length s) 29 && all_id_bytes s

abbrev pub default_id : Bytes
default_id = codes "default"

-- `List`
abbrev pub list_apps : Manager → List Info
list_apps m = map (λ entry. entry.1.info) m.apps

-- `saveRegistry`: a save that fails leaves the old file.
abbrev pub save_registry : Bool → Manager → Manager
save_registry disk m = if disk then record m { registry = lists (list_apps m) } else m

abbrev pub or_no_files : Option AppFiles → AppFiles
or_no_files none = no_files
or_no_files (some files) = files

-- What the directory of an id holds.
abbrev pub files_at : Option App → Option AppFiles → AppFiles
files_at none dir = or_no_files dir
files_at (some a) dir = files_of a

unfoldable pub files_under : Bytes → Manager → AppFiles
unfolding lookup
files_under id m = files_at (lookup id m.apps) (lookup id m.dirs)

-- os.RemoveAll, with what it leaves.
abbrev pub remove_all : Bytes → Option AppFiles → Dict AppFiles → Dict AppFiles
remove_all id none dirs = delete id dirs
remove_all id (some files) dirs = insert id files dirs

-- m.apps[id] = app
abbrev pub add_app : Bytes → App → Manager → Manager
add_app id a m = record m { apps = insert id a m.apps; dirs = delete id m.dirs }

-- The services of an app, if each could be made.
abbrev pub assemble :
    Info
    → Option Service
    → Option Db
    → Option Store
    → Option RuleSet
    → Option RemoteConfig
    → Option App
assemble info auth_made db_made store_made rules_made config_made = do
  auth ← auth_made
  db ← db_made
  store ← store_made
  rules ← rules_made
  remote_config ← config_made
  some (record {
    info = info;
    auth = auth;
    db = db;
    store = store;
    rules = rules;
    remote_config = remote_config;
  })

-- `Get`: `none` is ErrNotFound.
unfoldable pub get_app : Bytes → Manager → Option App
unfolding lookup
get_app id m = lookup id m.apps

module _ (k : Codec) where
  -- `appSecret`
  unfoldable pub app_secret : Bytes → Bytes → Bytes
  app_secret master id = k.mac master (codes "firego-app:" ++ id)

  -- `initServices`, once the directories are made; `none` is an error.
  unfoldable pub init_services : Info → AppFiles → Bytes → Option App
  unfolding app_secret
  init_services info files master =
      assemble info (new_auth files.users_json (app_secret master info.id))
        (new_db files.database_json (some new_hub))
        (new_store files.metadata_json files.object_files) (new_rules files.rules_json)
        (new_remote_config files.remote_config_json)

  -- `initServices`; `made` tells whether the directories of an app can be made.
  unfoldable pub start_app : Info → (Bytes → Bool) → Manager → Option App
  unfolding init_services files_under
  start_app info made m =
      if made info.id then init_services info (files_under info.id m) m.master_secret else none

  -- The loop of `loadAll`.
  unfoldable pub load_infos : List Info → (Bytes → Bool) → Manager → Option Manager
  unfolding start_app
  load_infos [] made m = some m
  load_infos (info ∷ infos) made m = do
    a ← start_app info made m
    load_infos infos made (add_app info.id a m)

  abbrev pub load_registry : Registry → (Bytes → Bool) → Manager → Option Manager
  load_registry no_registry made m = some m
  load_registry (lists infos) made m = load_infos infos made m
  load_registry bad_registry made m = none

  -- `create`, behind `initServices`.
  abbrev pub register_app :
      Option App → Bytes → Option AppFiles → Bool → Manager → (AppError ⊎ App) × Manager
  register_app none id left disk m = (inl app_failed, m)
  register_app (some a) id left true m = (inr a, save_registry true (add_app id a m))
  register_app (some a) id left false m =
      let m' = add_app id a m in
      (inl app_failed, record m' { apps = delete id m'.apps; dirs = remove_all id left m'.dirs })

  -- `create`
  unfoldable pub create :
      Bytes
      → Bytes
      → List ℕ
      → ℕ
      → (Bytes → Bool)
      → Option AppFiles
      → Bool
      → Manager
      → (AppError ⊎ App) × Manager
  unfolding start_app
  create id name key_bytes now made left disk m =
      let info : Info = record {
        id = id;
        name = name;
        api_key = random_hex key_bytes;
        created_at = unix now;
      } in
      register_app (start_app info made m) id left disk m

  abbrev pub or_id : Bytes → Bytes → Bytes
  or_id id name = if is_empty name then id else name

  abbrev pub is_running : Option App → Bool
  is_running none = false
  is_running (some a) = true

  -- `Create`
  unfoldable pub create_app :
      Bytes
      → Bytes
      → List ℕ
      → ℕ
      → (Bytes → Bool)
      → Option AppFiles
      → Bool
      → Manager
      → (AppError ⊎ App) × Manager
  unfolding create lookup trim_space
  create_app id name key_bytes now made left disk m =
      if not (valid_id id)
      then (inl invalid_id, m)
      else if is_running (lookup id m.apps)
      then (inl id_taken, m)
      else create id (or_id id (trim_space name)) key_bytes now made left disk m

  -- `Delete`: `none` if it returns no error.
  unfoldable pub delete_app : Bytes → Option AppFiles → Bool → Manager → Option AppError × Manager
  unfolding lookup
  delete_app id left disk m =
      if same id default_id
      then (some is_protected, m)
      else if not (is_running (lookup id m.apps))
      then (some app_unknown, m)
      else (
        if disk then none else some app_failed,
        save_registry disk (record m { apps = delete id m.apps; dirs = remove_all id left m.dirs }),
      )

  abbrev pub created_default : (AppError ⊎ App) × Manager → Option Manager
  created_default (inl e, m) = none
  created_default (inr a, m) = some m

  -- The end of `New`.
  abbrev pub with_default : List ℕ → ℕ → (Bytes → Bool) → Bool → Manager → Option Manager
  with_default key_bytes now made disk m =
      if is_running (lookup default_id m.apps)
      then some m
      else created_default (create default_id (codes "Default App") key_bytes now made none disk m)

  -- `New`, on a registry and the directories of all apps; `none` is an error.
  unfoldable pub new :
      Registry → Dict AppFiles → Bytes → List ℕ → ℕ → (Bytes → Bool) → Bool → Option Manager
  unfolding load_infos create lookup
  new registry dirs master key_bytes now made disk = do
    m ←
        load_registry registry made
          (record { apps = []; registry = registry; dirs = dirs; master_secret = master })
    with_default key_bytes now made disk m
