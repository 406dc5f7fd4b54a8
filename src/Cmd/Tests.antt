-- ===== src/Cmd/Tests.antt =====
-- Starts of the program.
use firego.Base.{◌≡◌, refl, ap, true, none, some, List, [], ◌∷◌, codes, has_prefix, arith}
use firego.Jwt.Sample.{sample}
use firego.Auth.Email.{random_hex}
use firego.Auth.Sample.{plain}
use firego.Apps.Manager.{no_registry}
use firego.Apps.Sample.{master, begun, begins}
use firego.Server.Http.{Outside, Request}
use firego.Server.Router.{Server, Route, admin, post_apps, new_server, serve_all}
use firego.Server.AdminKey.{SetUpAs}
use firego.Server.Sample.{blank, outside}
use firego.Cmd.Start.{
  got_key, load_or_gen_key, key_from_env_or_file, first_generator, with_keys, Machine, start_server,
}
use firego.Cmd.Keys.{load_or_gen_key-again, serve_all-start_server}

load_or_gen_key-again_example :
    load_or_gen_key (load_or_gen_key none (some (0xAB ∷ [])) true).1 none true
    ≡ (got_key (codes "ab"), some (codes "ab"))
unfolding load_or_gen_key random_hex
load_or_gen_key-again_example =
    load_or_gen_key-again none (some (0xAB ∷ [])) none true true (codes "ab") (omega arith) refl

abbrev machine : Machine
machine = record {
  data_made = true;
  secret_variable = master;
  admin_variable = [];
  secret_file = none;
  admin_file = none;
  secret_random = some (0 ∷ []);
  admin_random = some (0xAB ∷ []);
  registry = no_registry;
  dirs = [];
  key_bytes = 0xAB ∷ [];
  now = 5000000000;
  made = λ id. true;
  disk = true;
}

abbrev server : Server
server = new_server begun (codes "ab") first_generator

starts : start_server sample machine ≡ some server
unfolding start_server key_from_env_or_file load_or_gen_key random_hex
starts = ap (λ o. with_keys (got_key master) (got_key (codes "ab")) (λ secret. o)) begins

abbrev requests : List (Route × Request × Outside)
requests = (admin post_apps, blank, outside) ∷ []

serve_all-start_server_example : SetUpAs begun (serve_all sample plain requests server).mgr
unfolding has_prefix
serve_all-start_server_example =
    serve_all-start_server sample plain machine server requests (omega arith) starts (refl, tt)
