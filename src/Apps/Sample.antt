-- ===== src/Apps/Sample.antt =====
-- A manager that has just begun, and apps with nothing in them, for runs.
use firego.Base.{◌≡◌, refl, true, none, some, [], ◌∷◌, Bytes, codes, same, lookup, insert, delete}
use firego.Json.{absent, end, get_field}
use firego.Realtime.Hub.{new_hub}
use firego.Jwt.Sample.{sample}
use firego.Auth.Email.{random_hex}
use firego.Auth.Service.{empty, absent as no_accounts, new as new_auth}
use firego.Database.Store.{new as new_db}
use firego.Storage.Store.{absent as no_meta, new as new_store}
use firego.Rules.Tree.{node, no_children}
use firego.Rules.Check.{RuleSet, new as new_rules}
use firego.Apps.RemoteConfig.{new_remote_config}
use firego.Apps.Manager.{
  Info, App, Manager, no_registry, lists, default_id, app_secret, init_services, start_app,
  files_under, create, new,
}
use firego.Apps.Running.{Step, creates}

abbrev pub master : Bytes
master = codes "master"

abbrev pub default_access : RuleSet
default_access = record {
  root = some (node (codes "auth != null") (codes "auth != null") no_children);
  file = absent;
}

abbrev pub fresh_app : Info → App
fresh_app info = record {
  info = info;
  auth = empty no_accounts (app_secret sample master info.id);
  db = record { root = end; file = absent; hub = some new_hub };
  store = record { meta = []; objects = []; meta_file = no_meta };
  rules = default_access;
  remote_config = record { params = some end; file = absent };
}

abbrev pub default_info : Info
default_info = record {
  id = default_id;
  name = codes "Default App";
  api_key = codes "ab";
  created_at = 5;
}

abbrev pub begun : Manager
begun = record {
  apps = (default_id, fresh_app default_info) ∷ [];
  registry = lists (default_info ∷ []);
  dirs = [];
  master_secret = master;
}

pub begins : new sample no_registry [] master (0xAB ∷ []) 5000000000 (λ id. true) true ≡ some begun
unfolding new create start_app init_services files_under lookup insert delete new_auth new_db
    new_store new_rules new_remote_config get_field random_hex same
begins = refl

-- Another app is created.
abbrev pub shop_created : Step
shop_created = creates (codes "shop") (codes "Shop") (0 ∷ []) 7000000000 (λ id. true) none true
