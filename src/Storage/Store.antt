-- ===== src/Storage/Store.antt =====
-- internal/storage/storage.go: `Store` and its methods. A file of an object is named by the
-- sanitized name; how the calls of the file system end comes as arguments.
use firego.Base.{
  ℕ, Bool, true, false, ◌||◌, Option, none, some, List, [], ◌∷◌, Bytes, codes, Dict, lookup, insert,
  delete, length, is_empty, has_prefix, if◌then◌else◌, ◌⊎◌, inl, inr,
}
use firego.Jwt.Token.{unix}
use firego.Storage.Names.{sanitize}

pub record Object : Type 0 where
  pub name : Bytes
  pub size : ℕ
  pub content_type : Bytes
  pub updated_at : ℕ

-- `metadata.json`. One that holds null, which no save writes, stands for the empty map.
pub data MetaFile : Type 0 where
  absent : MetaFile
  holds : Dict Object → MetaFile
  broken : MetaFile

-- `Store`, with the files below objects/ and the file of the metadata.
pub record Store : Type 0 where
  pub meta : Dict Object
  pub objects : Dict Bytes
  pub meta_file : MetaFile

pub data StorageError : Type 0 where
  not_found : StorageError
  empty_name : StorageError
  io_failed : StorageError

-- How a write in place ends: one that fails may leave anything.
pub data SaveMeta : Type 0 where
  meta_saved : SaveMeta
  meta_failed : MetaFile → SaveMeta

-- How creating and copying to an object's file ends: one that fails leaves no file, or some bytes.
pub data Copy : Type 0 where
  copied : Copy
  copy_failed : Option Bytes → Copy

-- How os.Remove ends.
pub data Removal : Type 0 where
  file_removed : Removal
  file_absent : Removal
  file_kept : Removal

-- `New`, over the object files that are there: `none` is an error.
unfoldable pub new : MetaFile → Dict Bytes → Option Store
new absent objects = some (record { meta = []; objects = objects; meta_file = absent })
new (holds m) objects = some (record { meta = m; objects = objects; meta_file = holds m })
new broken objects = none

-- `saveMeta`: true if it returns no error.
abbrev pub save_meta : SaveMeta → Store → Bool × Store
save_meta meta_saved s = (true, record s { meta_file = holds s.meta })
save_meta (meta_failed left) s = (false, record s { meta_file = left })

abbrev pub left_file : Option Bytes → Bytes → Store → Store
left_file none name s = record s { objects = delete name s.objects }
left_file (some part) name s = record s { objects = insert name part s.objects }

abbrev pub type_of : Bytes → Bytes
type_of content_type =
    if is_empty content_type then codes "application/octet-stream" else content_type

abbrev pub listed : Object → Bool × Store → (StorageError ⊎ Object) × Store
listed obj (ok, s) = (if ok then inr obj else inl io_failed, s)

abbrev pub put_copied :
    Copy → Bytes → Bytes → Bytes → ℕ → SaveMeta → Store → (StorageError ⊎ Object) × Store
put_copied (copy_failed part) name content_type content now save s =
    (inl io_failed, left_file part name s)
put_copied copied name content_type content now save s =
    let obj : Object = record {
      name = name;
      size = length content;
      content_type = type_of content_type;
      updated_at = unix now;
    } in
    listed obj (
      save_meta save
        (record s { meta = insert name obj s.meta; objects = insert name content s.objects }))

-- `Put`, alone: the program takes its lock only for the metadata.
unfoldable pub put :
    Bytes → Bytes → Bytes → ℕ → Copy → SaveMeta → Store → (StorageError ⊎ Object) × Store
unfolding sanitize
put text content_type content now copy save s =
    let name = sanitize text in
    if is_empty name
    then (inl empty_name, s)
    else put_copied copy name content_type content now save s

abbrev pub opened : Option Object → Option Bytes → StorageError ⊎ Object × Bytes
opened none file = inl not_found
opened (some obj) none = inl io_failed
opened (some obj) (some content) = inr (obj, content)

-- `Open`, with the bytes that the reader gives.
unfoldable pub open_object : Bytes → Store → StorageError ⊎ Object × Bytes
unfolding sanitize lookup
open_object text s = let name = sanitize text in opened (lookup name s.meta) (lookup name s.objects)

abbrev pub after_removal : Removal → Bytes → SaveMeta → Store → Bool × Store
after_removal file_removed name save s =
    save_meta save (record s { objects = delete name s.objects })
after_removal file_absent name save s = save_meta save s
after_removal file_kept name save s = (false, s)

abbrev pub delete_known :
    Option Object → Bytes → Removal → SaveMeta → Store → Option StorageError × Store
delete_known none name removal save s = (some not_found, s)
delete_known (some obj) name removal save s =
    let (ok, s') = after_removal removal name save (record s { meta = delete name s.meta }) in
    (if ok then none else some io_failed, s')

-- `Delete`: `none` if it returns no error.
unfoldable pub delete_object : Bytes → Removal → SaveMeta → Store → Option StorageError × Store
unfolding sanitize lookup
delete_object text removal save s =
    let name = sanitize text in delete_known (lookup name s.meta) name removal save s

unfoldable pub list_below : Bytes → Dict Object → List Object
list_below prefix [] = []
list_below prefix (entry ∷ m) =
    let rest = list_below prefix m in
    if is_empty prefix || has_prefix entry.0 prefix then entry.1 ∷ rest else rest

-- `List`
unfoldable pub list : Bytes → Store → List Object
unfolding sanitize list_below
list prefix s = list_below (sanitize prefix) s.meta
