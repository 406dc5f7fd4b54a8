-- ===== src/Cmd/Start.antt =====
-- cmd/firego/main.go: `main` up to its server, and its helpers. A variable of the environment that is
-- not set is the empty text; how the calls of the file system end are arguments.
use firego.Base.{
  ℕ, Bool, true, false, not, Option, none, some, List, [], ◌∷◌, Bytes, codes, is_empty, Dict, ◌>>=◌,
  if◌then◌else◌,
}
use firego.Jwt.Token.{Codec}
use firego.Auth.Email.{random_hex}
use firego.Apps.Manager.{AppFiles, Registry, Manager, new}
use firego.Database.PushId.{Generator}
use firego.Server.Router.{Server, new_server}

-- `envOr`, of the value of the variable.
unfoldable pub env_or : Bytes → Bytes → Bytes
env_or value fallback = if not (is_empty value) then value else fallback

-- `defaultAddr`, of PORT and FIREGO_ADDR.
unfoldable pub default_addr : Bytes → Bytes → Bytes
unfolding env_or
default_addr port addr = if not (is_empty port) then b':' ∷ port else env_or addr (codes ":8080")

-- A key, and what its file holds: `none` is one that cannot be read; `died` is log.Fatalf.
pub data Key : Type 0 where
  died : Key
  got_key : Bytes → Key

abbrev pub generated : Option (List ℕ) → Bool → Option Bytes → Key × Option Bytes
generated none disk file = (died, file)
generated (some bytes) false file = (died, file)
generated (some bytes) true file = (got_key (random_hex bytes), some (random_hex bytes))

-- `loadOrGenKey`, with the random bytes, if there are any, and the outcome of the write.
unfoldable pub load_or_gen_key : Option Bytes → Option (List ℕ) → Bool → Key × Option Bytes
unfolding random_hex
load_or_gen_key none random disk = generated random disk none
load_or_gen_key (some data_bytes) random disk =
    if not (is_empty data_bytes)
    then (got_key data_bytes, some data_bytes)
    else generated random disk (some data_bytes)

-- `keyFromEnvOrFile`, of the value of the variable.
unfoldable pub key_from_env_or_file :
    Bytes → Option Bytes → Option (List ℕ) → Bool → Key × Option Bytes
unfolding load_or_gen_key
key_from_env_or_file value file random disk =
    if not (is_empty value) then (got_key value, file) else load_or_gen_key file random disk

-- What `main` finds: whether its directory can be made, the variables FIREGO_SECRET and FIREGO_ADMIN_KEY, the key files, the registry
-- and the directories of apps, and what its calls give.
pub record Machine : Type 0 where
  pub data_made : Bool
  pub secret_variable : Bytes
  pub admin_variable : Bytes
  pub secret_file : Option Bytes
  pub admin_file : Option Bytes
  pub secret_random : Option (List ℕ)
  pub admin_random : Option (List ℕ)
  pub registry : Registry
  pub dirs : Dict AppFiles
  pub key_bytes : List ℕ
  pub now : ℕ
  pub made : Bytes → Bool
  pub disk : Bool

-- lastPushTime and lastPushRand, as the process begins.
abbrev pub first_generator : Generator
first_generator = record {
  last_time = 0;
  last_rand = 0 ∷ 0 ∷ 0 ∷ 0 ∷ 0 ∷ 0 ∷ 0 ∷ 0 ∷ 0 ∷ 0 ∷ 0 ∷ 0 ∷ [];
}

abbrev pub with_keys : Key → Key → (Bytes → Option Manager) → Option Server
with_keys died admin manager = none
with_keys (got_key master) died manager = none
with_keys (got_key master) (got_key admin) manager = do
  mgr ← manager master
  some (new_server mgr admin first_generator)

-- `main`, up to the server that it starts; `none` is log.Fatalf.
unfoldable pub start_server : Codec → Machine → Option Server
unfolding key_from_env_or_file new
start_server k m =
    if not m.data_made
    then none
    else with_keys (key_from_env_or_file m.secret_variable m.secret_file m.secret_random m.disk).0
        (key_from_env_or_file m.admin_variable m.admin_file m.admin_random m.disk).0
        (λ master. new k m.registry m.dirs master m.key_bytes m.now m.made m.disk)
