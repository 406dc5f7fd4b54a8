-- ===== src/Cmd/Keys.antt =====
-- cmd/firego/main.go: the keys outlive a restart, and none is empty.
use firego.Base.{
  ℕ, ◌<◌, ◌≡◌, refl, sym, ap, ◌∙◌, Bool, true, false, not, Option, none, some, List, [], ◌∷◌, Bytes,
  is_empty, length, arith, same, All, bind_inv, some_inj, if◌then◌else◌,
}
use firego.Jwt.Token.{Codec}
use firego.Auth.Service.{Bcrypt}
use firego.Auth.Email.{random_hex}
use firego.Apps.Manager.{Manager}
use firego.Server.Http.{Request, Outside}
use firego.Server.Admin.{shown_key}
use firego.Server.Router.{Server, new_server, Route, serve_all}
use firego.Server.AdminKey.{SetUpAs, serve_all-SetUpAs}
use firego.Cmd.Start.{
  Key, died, got_key, generated, load_or_gen_key, key_from_env_or_file, Machine, with_keys,
  first_generator, start_server,
}

-- The random source gives some bytes, if it gives any.
abbrev pub Fills : Option (List ℕ) → Type 0
Fills none = Unit
Fills (some bs) = 0 < length bs

is_empty_of : (s : Bytes) → 0 < length s → is_empty s ≡ false
is_empty_of [] h = absurd (omega (arith, h))
is_empty_of (c ∷ s) h = refl

got_key_inj : (k k' : Bytes) → got_key k ≡ got_key k' → k ≡ k'
got_key_inj k k' h = cc

generated_full :
    (random : Option (List ℕ)) (disk : Bool) (file : Option Bytes) (k : Bytes)
    → Fills random
    → (generated random disk file).0 ≡ got_key k
    → (is_empty k ≡ false) × ((generated random disk file).1 ≡ some k)
unfolding random_hex
generated_full none disk file k full h = absurd cc
generated_full (some bs) false file k full h = absurd cc
generated_full (some []) true file k full h = absurd (omega (arith, full))
generated_full (some (b ∷ bs)) true file k full h =
    let it = got_key_inj _ k h in (ap is_empty (sym it), ap some it)

load_or_gen_key_full :
    (file : Option Bytes) (random : Option (List ℕ)) (disk : Bool) (k : Bytes)
    → Fills random
    → (load_or_gen_key file random disk).0 ≡ got_key k
    → (is_empty k ≡ false) × ((load_or_gen_key file random disk).1 ≡ some k)
unfolding load_or_gen_key
load_or_gen_key_full none random disk k full h = generated_full random disk none k full h
load_or_gen_key_full (some []) random disk k full h = generated_full random disk (some []) k full h
load_or_gen_key_full (some (c ∷ s)) random disk k full h =
    let it = got_key_inj (c ∷ s) k h in (ap is_empty (sym it), ap some it)

load_or_gen_key_lem :
    (k : Bytes) (random : Option (List ℕ)) (disk : Bool)
    → is_empty k ≡ false
    → load_or_gen_key (some k) random disk ≡ (got_key k, some k)
unfolding load_or_gen_key
load_or_gen_key_lem k random disk full = rw full refl

-- A key that was read or generated, and in the second case written, is what every later start reads.
pub load_or_gen_key-again :
    (file : Option Bytes) (random random' : Option (List ℕ)) (disk disk' : Bool) (k : Bytes)
    → Fills random
    → (load_or_gen_key file random disk).0 ≡ got_key k
    → load_or_gen_key (load_or_gen_key file random disk).1 random' disk' ≡ (got_key k, some k)
load_or_gen_key-again file random random' disk disk' k full h =
    let (not_empty, stored_key) = load_or_gen_key_full file random disk k full h in
    ap (λ f. load_or_gen_key f random' disk') stored_key
    ∙ load_or_gen_key_lem k random' disk' not_empty

key_from_env_full :
    (value : Bytes) (file : Option Bytes) (random : Option (List ℕ)) (disk : Bool) (k : Bytes)
    → Fills random
    → (key_from_env_or_file value file random disk).0 ≡ got_key k
    → is_empty k ≡ false
unfolding key_from_env_or_file
key_from_env_full [] file random disk k full h = (load_or_gen_key_full file random disk k full h).0
key_from_env_full (c ∷ s) file random disk k full h = ap is_empty (sym (got_key_inj (c ∷ s) k h))

with_keys_admin :
    (master admin : Key) (manager : Bytes → Option Manager) (s : Server)
    → with_keys master admin manager ≡ some s
    → admin ≡ got_key s.admin_key
with_keys_admin died admin manager s h = absurd cc
with_keys_admin (got_key master) died manager s h = absurd cc
with_keys_admin (got_key master) (got_key admin) manager s h =
    let (mgr, _, made) =
      bind_inv (manager master) (λ mgr. some (new_server mgr admin first_generator)) s h in
    ap (λ x. got_key x.admin_key) (some_inj.0 made)

started :
    (data_made : Bool) (o : Option Server) (s : Server)
    → (if not data_made then none else o) ≡ some s
    → o ≡ some s
started true o s h = h
started false o s h = absurd cc

same_nothing : (key : Bytes) → is_empty key ≡ false → same [] key ≡ false
unfolding same
same_nothing [] h = absurd cc
same_nothing (c ∷ s) h = refl

module _ (c : Codec) (b : Bcrypt) where
  admin_key_full :
      (m : Machine) (s : Server)
      → Fills m.admin_random
      → start_server c m ≡ some s
      → is_empty s.admin_key ≡ false
  unfolding start_server
  admin_key_full m s full h =
      key_from_env_full m.admin_variable m.admin_file m.admin_random m.disk s.admin_key full (
        with_keys_admin
          (key_from_env_or_file m.secret_variable m.secret_file m.secret_random m.disk).0
          (key_from_env_or_file m.admin_variable m.admin_file m.admin_random m.disk).0 _ s
          (started m.data_made _ s h))

  keyless_hidden :
      (requests : List (Route × Request × Outside)) (admin_key : Bytes)
      → is_empty admin_key ≡ false
      → All (λ r. shown_key r.1 ≡ []) requests
      → All (λ r. same (shown_key r.1) admin_key ≡ false) requests
  keyless_hidden [] admin_key full bare = tt
  keyless_hidden (r ∷ more) admin_key full bare = (
    ap (λ x. same x admin_key) bare.0 ∙ same_nothing admin_key full,
    keyless_hidden more admin_key full bare.1,
  )

  -- A server that `main` starts is not administered without a key: requests that show none leave the
  -- apps with the same ids, names, keys, rules and configurations, in memory and in the registry on
  -- disk.
  pub serve_all-start_server :
      (m : Machine) (s : Server) (requests : List (Route × Request × Outside))
      → Fills m.admin_random
      → start_server c m ≡ some s
      → All (λ r. shown_key r.1 ≡ []) requests
      → SetUpAs s.mgr (serve_all c b requests s).mgr
  serve_all-start_server m s requests full h bare =
      serve_all-SetUpAs c b requests s
        (keyless_hidden requests s.admin_key (admin_key_full m s full h) bare)
