-- ===== src/Server/Keeps.antt =====
-- internal/server/server.go: what the handlers of an app leave as it is.
use firego.Base.{
  ℕ, ◌≡◌, refl, Bool, true, false, not, Bool-cases, Option, none, some, List, Bytes, codes, ◌⊎◌,
  inl, inr, is_empty, ltb, length, if◌then◌else◌,
}
use firego.Json.{Json, Fields}
use firego.Jwt.Token.{Codec}
use firego.Auth.Service.{User, Service, Bcrypt, AuthError}
use firego.Auth.Secrets.{secret-register, secret-logout}
use firego.Database.Store.{Db, push}
use firego.Database.PushId.{Generator}
use firego.Storage.Store.{
  Object, Store, StorageError, Copy, not_found, empty_name, io_failed, delete_object,
}
use firego.Realtime.Hub.{Hub}
use firego.Rules.Check.{can_read, can_write}
use firego.Apps.Manager.{App}
use firego.Apps.Running.{SameApp}
use firego.Server.Http.{Request, Outside, Response, decode_texts, decode_map}
use firego.Server.Database.{
  bearer, validate_db_path, auth_ctx, extract_auth, app_auth_route, may_write, with_body, pushed,
  handle_db_put, handle_db_patch, handle_db_push, handle_db_delete, or_nobody,
}
use firego.Server.Accounts.{
  trim_prefix, registered, register_with, handle_register, handle_logout, handle_me,
}
use firego.Server.Objects.{
  max_upload, put_reply, delete_reply, handle_storage_put, handle_storage_delete,
}
use firego.Server.Admin.{
  put_rules_with, handle_put_rules, put_config_with, patch_config_with, handle_put_remote_config,
  handle_patch_remote_config, handle_delete_remote_config_key,
}
use firego.Server.Stream.{stream_prefix, subscribe_to, stream_as, handle_stream}
use firego.Server.Router.{
  AdminAppRoute, AppRoute, LimitedRoute, get_rules, put_rules, get_config, put_config, patch_config,
  delete_config_key, get_sdk_config, get_client_config, post_logout, get_me, get_db, put_db,
  patch_db, delete_db, get_stream, list_storage, post_storage, get_storage, delete_storage,
  post_register, post_login, on_admin_app, on_app, on_limited,
}

-- What no client changes of an app: what its secret, its rules and its configuration are.
abbrev pub SameSetup : App → App → Type 0
SameSetup a b = SameApp a b × (b.rules ≡ a.rules) × (b.remote_config ≡ a.remote_config)

same_setup : (a : App) → SameSetup a a
same_setup a = ((refl, refl), refl, refl)

module _ (k : Codec) (b : Bcrypt) where
  -- What holds of the state before and after the handler holds after the guards before it.
  module _ {ℓ κ} {S : Type ℓ} (P : S → Type κ) where
    pub routed :
        (o : Option (Option User)) (state : S) (next : Option User → Response × S)
        → P state
        → ((user : Option User) → P (next user).1)
        → P (app_auth_route k b o state next).1
    routed none state next before after = before
    routed (some user) state next before after = after user

    guarded :
        (req : Request) (user : Option User) (a : App) (state : S) (next : Response × S)
        → P state
        → P next.1
        → P (may_write k b req user a state next).1
    guarded req user a state next before after = elim (Bool-cases (validate_db_path req.path)) [
      | inl valid ↦ elim (Bool-cases (can_write a.rules req.path (auth_ctx user))) [
        | inl granted ↦ rw (valid, granted) after
        | inr denied ↦ rw (valid, denied) before
      ]
      | inr invalid ↦ rw invalid before
    ]

    bodied {μ} :
        {V : Type μ} (o : Option V) (state : S) (next : V → Response × S)
        → P state
        → ((v : V) → P (next v).1)
        → P (with_body k b o state next).1
    bodied none state next before after = before
    bodied (some v) state next before after = after v

  subscribe_to-SameSetup :
      (prefix : Bytes) (o : Option Hub) (a : App) → SameSetup a (subscribe_to prefix o a).1
  subscribe_to-SameSetup prefix none a = same_setup a
  subscribe_to-SameSetup prefix (some h) a = same_setup a

  streamed :
      (req : Request) (user : Option User) (a : App) → SameSetup a (stream_as k b req user a).1
  streamed req user a = elim (Bool-cases (can_read a.rules (stream_prefix req) (auth_ctx user))) [
    | inl granted ↦ rw granted (subscribe_to-SameSetup (stream_prefix req) a.db.hub a)
    | inr denied ↦ rw denied (same_setup a)
  ]

  put_reply-SameSetup :
      (large : Bool) (copy : Copy) (a : App) (r : (StorageError ⊎ Object) × Store)
      → SameSetup a (put_reply large copy a r).1
  put_reply-SameSetup large copy a (inl e, store) = same_setup a
  put_reply-SameSetup large copy a (inr obj, store) = same_setup a

  delete_reply-SameSetup :
      (a : App) (r : Option StorageError × Store) → SameSetup a (delete_reply a r).1
  delete_reply-SameSetup a (none, store) = same_setup a
  delete_reply-SameSetup a (some not_found, store) = same_setup a
  delete_reply-SameSetup a (some empty_name, store) = same_setup a
  delete_reply-SameSetup a (some io_failed, store) = same_setup a

  pub on_app-SameSetup :
      (route : AppRoute) (req : Request) (out : Outside) (a : App)
      → SameSetup a (on_app k b route req out a).1
  unfolding handle_logout handle_me handle_db_put handle_db_patch handle_db_delete handle_stream
      handle_storage_put handle_storage_delete
  on_app-SameSetup get_sdk_config req out a = same_setup a
  on_app-SameSetup get_client_config req out a = same_setup a
  on_app-SameSetup post_logout req out a =
      routed (SameSetup a) (extract_auth k b true req.authorization out.now a) a _ (same_setup a)
        (λ user. (
          (refl, secret-logout k b (trim_prefix bearer req.authorization) out.now a.auth),
          refl,
          refl,
        ))
  on_app-SameSetup get_me req out a =
      routed (SameSetup a) (extract_auth k b true req.authorization out.now a) a _ (same_setup a)
        (λ user. same_setup a)
  on_app-SameSetup get_db req out a = same_setup a
  on_app-SameSetup put_db req out a =
      routed (SameSetup a) (extract_auth k b true req.authorization out.now a) a _ (same_setup a)
        (λ user.
          guarded (SameSetup a) req user a a _ (same_setup a)
            (bodied (SameSetup a) req.body a _ (same_setup a) (λ v. same_setup a)))
  on_app-SameSetup patch_db req out a =
      routed (SameSetup a) (extract_auth k b true req.authorization out.now a) a _ (same_setup a)
        (λ user.
          guarded (SameSetup a) req user a a _ (same_setup a)
            (bodied (SameSetup a) (decode_map req.body) a _ (same_setup a) (λ v. same_setup a)))
  on_app-SameSetup delete_db req out a =
      routed (SameSetup a) (extract_auth k b true req.authorization out.now a) a _ (same_setup a)
        (λ user. guarded (SameSetup a) req user a a _ (same_setup a) (same_setup a))
  on_app-SameSetup get_stream req out a =
      streamed req (or_nobody k b (extract_auth k b false req.authorization out.now a)) a
  on_app-SameSetup list_storage req out a = same_setup a
  on_app-SameSetup post_storage req out a =
      routed (SameSetup a) (extract_auth k b true req.authorization out.now a) a _ (same_setup a)
        (λ user. put_reply-SameSetup (ltb max_upload (length req.upload)) out.copy a _)
  on_app-SameSetup get_storage req out a = same_setup a
  on_app-SameSetup delete_storage req out a =
      routed (SameSetup a) (extract_auth k b true req.authorization out.now a) a _ (same_setup a)
        (λ user. delete_reply-SameSetup a (delete_object req.path out.removal out.save a.store))

  registered-SameSetup :
      (a : App) (r : (AuthError ⊎ User × Bytes) × Service)
      → r.1.secret ≡ a.auth.secret
      → SameSetup a (registered a r).1
  registered-SameSetup a (inl e, auth) same_secret = ((refl, same_secret), refl, refl)
  registered-SameSetup a (inr done, auth) same_secret = ((refl, same_secret), refl, refl)

  register_with-SameSetup :
      (o : Option (Bytes × Bytes)) (out : Outside) (a : App)
      → SameSetup a (register_with k b o out a).1
  register_with-SameSetup none out a = same_setup a
  register_with-SameSetup (some (email, password)) out a =
      registered-SameSetup a _ (secret-register k b email password out.draw out.now out.disk a.auth)

  pub on_limited-SameSetup :
      (route : LimitedRoute) (req : Request) (out : Outside) (a : App)
      → SameSetup a (on_limited k b route req out a).1
  unfolding handle_register
  on_limited-SameSetup post_register req out a =
      register_with-SameSetup (decode_texts (codes "email") (codes "password") req.body) out a
  on_limited-SameSetup post_login req out a = same_setup a

  pushed-SameSetup :
      (a : App) (r : Option Bytes × Generator × Db) → SameSetup a (pushed k b a r).1.1
  pushed-SameSetup a (none, g, db) = same_setup a
  pushed-SameSetup a (some key, g, db) = same_setup a

  pub handle_db_push-SameSetup :
      (req : Request) (now milli : ℕ) (random : List ℕ) (disk : Bool) (g : Generator) (a : App)
      → SameSetup a (handle_db_push k b req now milli random disk g a).1.1
  unfolding handle_db_push
  handle_db_push-SameSetup req now milli random disk g a =
      let Kept : Generator × App → Type 0 = λ x. SameSetup a x.1 in
      routed Kept (extract_auth k b true req.authorization now a) (g, a) _ (same_setup a)
        (λ user.
          guarded Kept req user a (g, a) _ (same_setup a)
            (bodied Kept req.body (g, a) _ (same_setup a)
              (λ v. pushed-SameSetup a (push milli random req.path v disk g a.db))))

same_app : (a : App) → SameApp a a
same_app a = (refl, refl)

kept_if :
    (test : Bool) (a : App) (r r' : Response × App)
    → SameApp a r.1
    → SameApp a r'.1
    → SameApp a (if test then r else r').1
kept_if true a r r' h h' = h
kept_if false a r r' h h' = h'

put_config_with-SameApp :
    (o : Option (Option Fields)) (out : Outside) (a : App) → SameApp a (put_config_with o out a).1
put_config_with-SameApp none out a = same_app a
put_config_with-SameApp (some m) out a = same_app a

patch_config_with-SameApp :
    (o : Option (Option Fields)) (out : Outside) (a : App) → SameApp a (patch_config_with o out a).1
patch_config_with-SameApp none out a = same_app a
patch_config_with-SameApp (some m) out a = same_app a

put_rules_with-SameApp :
    (o : Option Json) (out : Outside) (a : App) → SameApp a (put_rules_with o out a).1
put_rules_with-SameApp none out a = same_app a
put_rules_with-SameApp (some j) out a = same_app a

pub on_admin_app-SameApp :
    (route : AdminAppRoute) (req : Request) (out : Outside) (a : App)
    → SameApp a (on_admin_app route req out a).1
unfolding handle_put_rules handle_put_remote_config handle_patch_remote_config
    handle_delete_remote_config_key
on_admin_app-SameApp get_rules req out a = same_app a
on_admin_app-SameApp put_rules req out a =
    kept_if (not out.read_all) a _ _ (same_app a) (put_rules_with-SameApp req.body out a)
on_admin_app-SameApp get_config req out a = same_app a
on_admin_app-SameApp put_config req out a = put_config_with-SameApp (decode_map req.body) out a
on_admin_app-SameApp patch_config req out a = patch_config_with-SameApp (decode_map req.body) out a
on_admin_app-SameApp delete_config_key req out a =
    kept_if (is_empty req.path) a _ _ (same_app a) (same_app a)
