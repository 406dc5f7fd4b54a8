-- ===== src/Server/Objects.antt =====
-- internal/server/server.go: the handlers of stored objects.
use firego.Base.{
  ℕ, Bool, true, false, Option, none, some, Bytes, codes, ◌⊎◌, inl, inr, ltb, length, take,
}
use firego.Jwt.Token.{Codec}
use firego.Auth.Service.{Bcrypt}
use firego.Storage.Store.{
  Object, Store, StorageError, not_found, io_failed, put, open_object, delete_object, list, Copy,
  copied, copy_failed,
}
use firego.Apps.Manager.{App}
use firego.Server.Http.{Request, Outside, Response, refusal, stored, objects, content}
use firego.Server.Database.{extract_auth, app_auth_route}
use firego.Server.Accounts.{done_reply}

-- maxUploadBytes
abbrev pub max_upload : ℕ
max_upload = 104857600

-- How the copy of an upload ends: http.MaxBytesReader ends one that is too large with an error.
abbrev pub limit_copy : Bool → Bytes → Copy → Copy
limit_copy true upload copied = copy_failed (some (take max_upload upload))
limit_copy true upload (copy_failed left) = copy_failed left
limit_copy false upload copy = copy

-- The status of an error of `Put`: 413 is for the error of the limit.
abbrev pub put_status : Bool → Copy → StorageError → Response
put_status true copied io_failed = refusal 413
put_status large copy e = refusal 500

abbrev pub put_reply : Bool → Copy → App → (StorageError ⊎ Object) × Store → Response × App
put_reply large copy app (inl e, store) = (put_status large copy e, record app { store = store })
put_reply large copy app (inr obj, store) = (stored obj, record app { store = store })

abbrev pub open_reply : StorageError ⊎ Object × Bytes → Response
open_reply (inl not_found) = refusal 404
open_reply (inl e) = refusal 500
open_reply (inr (obj, bytes)) = content obj.content_type bytes

abbrev pub delete_reply : App → Option StorageError × Store → Response × App
delete_reply app (none, store) = (done_reply (codes "deleted"), record app { store = store })
delete_reply app (some not_found, store) = (refusal 404, record app { store = store })
delete_reply app (some e, store) = (refusal 500, record app { store = store })

-- `handleStorageGet`
unfoldable pub handle_storage_get : Request → App → Response
unfolding open_object
handle_storage_get req app = open_reply (open_object req.path app.store)

-- `handleStorageList`
unfoldable pub handle_storage_list : Request → App → Response
unfolding list
handle_storage_list req app = objects (list req.prefix app.store)

module _ (k : Codec) (b : Bcrypt) where
  -- `handleStoragePut`, behind its route.
  unfoldable pub handle_storage_put : Request → Outside → App → Response × App
  unfolding extract_auth put
  handle_storage_put req out app =
      app_auth_route k b (extract_auth k b true req.authorization out.now app) app (λ user.
        let large = ltb max_upload (length req.upload) in
        put_reply large out.copy app (
          put req.path req.content_type req.upload out.now (limit_copy large req.upload out.copy)
            out.save app.store))

  -- `handleStorageDelete`, behind its route.
  unfoldable pub handle_storage_delete : Request → Outside → App → Response × App
  unfolding extract_auth delete_object
  handle_storage_delete req out app =
      app_auth_route k b (extract_auth k b true req.authorization out.now app) app
        (λ user. delete_reply app (delete_object req.path out.removal out.save app.store))
