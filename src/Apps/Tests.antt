-- ===== src/Apps/Tests.antt =====
-- Runs of a configuration and of a manager.
use firego.Base.{
  ◌≡◌, ◌≢◌, refl, sym, ap, subst, true, false, [], ◌∷◌, ◌++◌, ◌∙◌, arith, none, some, Bytes, codes,
  same, lookup, insert, delete, All, ◌>>=◌, inl,
}
use firego.Jwt.Sample.{sample, sum_mac, mac_lem, mac_apart}
use firego.Auth.Sample.{plain, ann, draw}
use firego.Auth.Email.{random_hex, trim_space}
use firego.Auth.Service.{new as new_auth, invalid_token, issue_token, verify}
use firego.Database.Store.{new as new_db}
use firego.Storage.Store.{new as new_store}
use firego.Rules.Check.{new as new_rules}
use firego.Apps.Manager.{
  Info, Manager, app_failed, app_secret, lists, default_id, get_app, list_apps, valid_id,
  init_services, start_app, files_under, create, create_app, new,
}
use firego.Apps.Running.{step, run as run_steps}
use firego.Apps.Failures.{SameBut, create_app-error}
use firego.Apps.Isolation.{verify-run_other}
use firego.Apps.Reload.{Reloads, all_made}
use firego.Apps.Restart.{disk_dirs, reload, new-disk_dirs}
use firego.Apps.Sample.{master, fresh_app, default_info, begun, begins, shop_created}
use firego.Json.{Fields, num, end, field, get_field, absent, written}
use firego.Apps.RemoteConfig.{RemoteConfig, panicked, new_remote_config}
use firego.Apps.Parameters.{sets, merges, deletes, change, run, change-run}

abbrev one : Fields
one = field (codes "n") (num 1) end

abbrev two : Fields
two = field (codes "n") (num 2) end

abbrev config : RemoteConfig
config = record { params = some one; file = absent }

change-run_example :
    change
      (merges two)
      written
      (run ((deletes (codes "n"), written) ∷ []) (change (sets none) written config).1)
    ≡ (panicked, run ((deletes (codes "n"), written) ∷ []) (change (sets none) written config).1)
change-run_example =
    change-run config ((deletes (codes "n"), written) ∷ []) (codes "n") (num 2) end written (tt, tt)

unsaved :
    (create_app sample (codes "shop") (codes "Shop") [] 7000000000 (λ id. true) none false begun).0
    ≡ inl app_failed
unfolding create_app create start_app init_services files_under valid_id lookup insert delete same
    new_auth new_db new_store new_rules new_remote_config get_field trim_space
unsaved = refl

create_app-error_example :
    SameBut
      (codes "shop")
      begun
      (create_app sample
        (codes "shop")
        (codes "Shop")
        []
        7000000000
        (λ id. true)
        none
        false
        begun).1
create_app-error_example =
    create_app-error sample (codes "shop") (codes "Shop") [] 7000000000 (λ id. true) none false
      begun app_failed unsaved

abbrev shop_info : Info
shop_info = record { id = codes "shop"; name = codes "Shop"; api_key = codes "00"; created_at = 7 }

abbrev grown : Manager
grown = record {
  apps = (default_id, fresh_app default_info) ∷ (codes "shop", fresh_app shop_info) ∷ [];
  registry = lists (default_info ∷ shop_info ∷ []);
  dirs = [];
  master_secret = master;
}

run-shop : run_steps sample (shop_created ∷ []) begun ≡ grown
unfolding run_steps step create_app create start_app init_services files_under valid_id lookup
    insert delete same new_auth new_db new_store new_rules new_remote_config get_field random_hex
    trim_space
run-shop = refl

reload-fresh : (info : Info) → reload sample master (fresh_app info) ≡ some (fresh_app info)
unfolding init_services new_auth new_db new_store new_rules new_remote_config get_field same
reload-fresh info = refl

secret_of : (id : Bytes) → app_secret sample master id ≡ sum_mac master (codes "firego-app:" ++ id)
unfolding app_secret
secret_of id = mac_lem master (codes "firego-app:" ++ id)

secrets_apart :
    (text : Bytes)
    → sample.mac (app_secret sample master default_id) text
      ≢ sample.mac (app_secret sample master (codes "shop")) text
unfolding sum_mac
secrets_apart text h = mac_apart _ _ text (omega arith) (omega arith) (omega arith) (
    ap (λ s. sample.mac s text) (sym (secret_of default_id))
    ∙ h
    ∙ ap (λ s. sample.mac s text) (secret_of (codes "shop")))

new-disk_dirs_example :
    (m' : Manager) × (new sample
        (run_steps sample (shop_created ∷ []) begun).registry
        (disk_dirs
          (run_steps sample (shop_created ∷ []) begun).apps
          (run_steps sample (shop_created ∷ []) begun).dirs)
        master
        []
        0
        all_made
        true
      ≡ some m')
    × (list_apps m' ≡ list_apps (run_steps sample (shop_created ∷ []) begun))
    × ((id : Bytes)
        → get_app id m'
          ≡ (get_app id (run_steps sample (shop_created ∷ []) begun) >>= reload sample master))
new-disk_dirs_example =
    new-disk_dirs sample master [] (0xAB ∷ []) [] 5000000000 0 (λ id. true) true true begun
      (shop_created ∷ []) begins (tt, tt)
      (subst (λ m. All (Reloads sample master) m.apps) (sym run-shop)
        (
          (fresh_app default_info, reload-fresh default_info),
          ((fresh_app shop_info, reload-fresh shop_info), tt),
        ))

verify-run_other_example :
    verify sample plain
      (issue_token sample plain ann draw 5000000000 (fresh_app default_info).auth.secret)
      6000000000
      (fresh_app shop_info).auth
    ≡ inl invalid_token
unfolding get_app lookup same
verify-run_other_example =
    verify-run_other sample plain [] master (0xAB ∷ []) 5000000000 (λ id. true) true begun
      (shop_created ∷ []) default_id (codes "shop") (fresh_app default_info) (fresh_app shop_info)
      ann draw 5000000000 6000000000 begins (ap (get_app default_id) run-shop)
      (ap (get_app (codes "shop")) run-shop) (secrets_apart _)
