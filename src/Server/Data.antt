-- ===== src/Server/Data.antt =====
-- internal/server/server.go: which handlers leave the data of an app as it is.
use firego.Base.{
  ◌≡◌, refl, ap, Bool, true, false, Bool-cases, Option, none, some, Bytes, codes, ◌⊎◌, inl, inr,
  ltb, length,
}
use firego.Jwt.Token.{Codec}
use firego.Auth.Service.{User, Service, Bcrypt, AuthError}
use firego.Database.PushId.{Generator}
use firego.Storage.Store.{
  Object, Store, StorageError, Copy, not_found, empty_name, io_failed, delete_object,
}
use firego.Realtime.Hub.{Hub}
use firego.RateLimit.Limiter.{Limiter}
use firego.Rules.Check.{can_read}
use firego.Apps.Manager.{App}
use firego.Server.Http.{Request, Outside, Response, decode_texts}
use firego.Server.Database.{extract_auth, auth_ctx, or_nobody}
use firego.Server.Guards.{put, patch, delete_all, handle, MayWrite, handle-MayWrite}
use firego.Server.Accounts.{registered, register_with, handle_register, handle_logout, handle_me}
use firego.Server.Objects.{
  max_upload, put_reply, delete_reply, handle_storage_put, handle_storage_delete,
}
use firego.Server.Stream.{stream_prefix, subscribe_to, stream_as, handle_stream}
use firego.Server.Sessions.{gate}
use firego.Server.Keeps.{routed}
use firego.Server.Router.{
  AppRoute, LimitedRoute, get_sdk_config, get_client_config, post_logout, get_me, get_db, put_db,
  patch_db, delete_db, get_stream, list_storage, post_storage, get_storage, delete_storage,
  post_register, post_login, on_app, on_limited,
}

-- The tree and the file of the database are the same.
abbrev pub SameData : App → App → Type 0
SameData a a' = (a'.db.root ≡ a.db.root) × (a'.db.file ≡ a.db.file)

pub same_data : (a : App) → SameData a a
same_data a = (refl, refl)

data_of_same : (a a' : App) → a' ≡ a → SameData a a'
data_of_same a a' e = (ap (λ x. x.db.root) e, ap (λ x. x.db.file) e)

pub gated {ℓ κ} :
    {S : Type ℓ} (P : S → Type κ) (ok : Bool) (next : Response × S) (l : Limiter) (state : S)
    → P state
    → P next.1
    → P (gate ok next l state).1.1
gated P true next l state before after = after
gated P false next l state before after = before

subscribe_to-SameData :
    (prefix : Bytes) (o : Option Hub) (a : App) → SameData a (subscribe_to prefix o a).1
subscribe_to-SameData prefix none a = same_data a
subscribe_to-SameData prefix (some h) a = same_data a

put_reply-SameData :
    (large : Bool) (copy : Copy) (a : App) (r : (StorageError ⊎ Object) × Store)
    → SameData a (put_reply large copy a r).1
put_reply-SameData large copy a (inl e, store) = same_data a
put_reply-SameData large copy a (inr obj, store) = same_data a

delete_reply-SameData :
    (a : App) (r : Option StorageError × Store) → SameData a (delete_reply a r).1
delete_reply-SameData a (none, store) = same_data a
delete_reply-SameData a (some not_found, store) = same_data a
delete_reply-SameData a (some empty_name, store) = same_data a
delete_reply-SameData a (some io_failed, store) = same_data a

registered-SameData :
    (a : App) (r : (AuthError ⊎ User × Bytes) × Service) → SameData a (registered a r).1
registered-SameData a (inl e, auth) = same_data a
registered-SameData a (inr done, auth) = same_data a

module _ (k : Codec) (b : Bcrypt) where
  streamed :
      (req : Request) (user : Option User) (a : App) → SameData a (stream_as k b req user a).1
  streamed req user a = elim (Bool-cases (can_read a.rules (stream_prefix req) (auth_ctx user))) [
    | inl granted ↦ rw granted (subscribe_to-SameData (stream_prefix req) a.db.hub a)
    | inr denied ↦ rw denied (same_data a)
  ]

  register_with-SameData :
      (o : Option (Bytes × Bytes)) (out : Outside) (a : App)
      → SameData a (register_with k b o out a).1
  register_with-SameData none out a = same_data a
  register_with-SameData (some (email, password)) out a = registered-SameData a _

  pub on_limited-SameData :
      (route : LimitedRoute) (req : Request) (out : Outside) (a : App)
      → SameData a (on_limited k b route req out a).1
  unfolding handle_register
  on_limited-SameData post_register req out a =
      register_with-SameData (decode_texts (codes "email") (codes "password") req.body) out a
  on_limited-SameData post_login req out a = same_data a

  -- A handler leaves the data, or the request may write.
  abbrev pub Guarded : Request → Outside → App → App → Type 0
  Guarded req out a a' = SameData a a' ⊎ MayWrite k b req out.now a

  pub kept_or {ℓ} :
      {S : Type ℓ} {W : Type 0} (f : S → App) (x y : S) → (x ≡ y) ⊎ W → SameData (f y) (f x) ⊎ W
  kept_or f x y (inl e) = inl (data_of_same (f y) (f x) (ap f e))
  kept_or f x y (inr w) = inr w

  pub on_app-Guarded :
      (route : AppRoute) (req : Request) (out : Outside) (g : Generator) (a : App)
      → Guarded req out a (on_app k b route req out a).1
  unfolding handle handle_logout handle_me handle_stream handle_storage_put handle_storage_delete
  on_app-Guarded get_sdk_config req out g a = inl (same_data a)
  on_app-Guarded get_client_config req out g a = inl (same_data a)
  on_app-Guarded post_logout req out g a = inl (
      routed k b (SameData a) (extract_auth k b true req.authorization out.now a) a _ (same_data a)
        (λ user. same_data a))
  on_app-Guarded get_me req out g a = inl (
      routed k b (SameData a) (extract_auth k b true req.authorization out.now a) a _ (same_data a)
        (λ user. same_data a))
  on_app-Guarded get_db req out g a = inl (same_data a)
  on_app-Guarded put_db req out g a =
      kept_or (λ x. x.1) _ (g, a) (handle-MayWrite k b put req out.now out.disk g a)
  on_app-Guarded patch_db req out g a =
      kept_or (λ x. x.1) _ (g, a) (handle-MayWrite k b patch req out.now out.disk g a)
  on_app-Guarded delete_db req out g a =
      kept_or (λ x. x.1) _ (g, a) (handle-MayWrite k b delete_all req out.now out.disk g a)
  on_app-Guarded get_stream req out g a =
      inl (streamed req (or_nobody k b (extract_auth k b false req.authorization out.now a)) a)
  on_app-Guarded list_storage req out g a = inl (same_data a)
  on_app-Guarded post_storage req out g a = inl (
      routed k b (SameData a) (extract_auth k b true req.authorization out.now a) a _ (same_data a)
        (λ user. put_reply-SameData (ltb max_upload (length req.upload)) out.copy a _))
  on_app-Guarded get_storage req out g a = inl (same_data a)
  on_app-Guarded delete_storage req out g a = inl (
      routed k b (SameData a) (extract_auth k b true req.authorization out.now a) a _ (same_data a)
        (λ user. delete_reply-SameData a (delete_object req.path out.removal out.save a.store)))
