-- ===== src/Storage/Tests.antt =====
-- Runs of the object store.
use firego.Base.{◌≡◌, refl, ◌⊎◌, inr, [], codes, same, split, All, if◌then◌else◌}
use firego.Paths.{slash}
use firego.Storage.Names.{sanitize, IsPlain, sanitize-IsPlain}
use firego.Storage.Store.{Object, Store, absent, meta_saved, copied, put, open_object}
use firego.Storage.Contents.{open_object-put}

climbs : sanitize (codes " ../a/./../b//c ") ≡ codes "b/c"
unfolding sanitize same
climbs = refl

sanitize-IsPlain_example :
    (sanitize (codes "../etc/passwd") ≡ [])
    ⊎ All IsPlain (split slash (sanitize (codes "../etc/passwd")))
sanitize-IsPlain_example = sanitize-IsPlain (codes "../etc/passwd")

abbrev none_stored : Store
none_stored = record { meta = []; objects = []; meta_file = absent }

abbrev page : Object
page = record { name = codes "a.txt"; size = 2; content_type = codes "text/plain"; updated_at = 1 }

open_object-put_example :
    open_object
      (codes "/a.txt")
      (put
        (codes "a.txt")
        (codes "text/plain")
        (codes "hi")
        1000000000
        copied
        meta_saved
        none_stored).1
    ≡ (if same (sanitize (codes "a.txt")) (sanitize (codes "/a.txt"))
        then inr (page, codes "hi")
        else open_object (codes "/a.txt") none_stored)
unfolding put same
open_object-put_example =
    open_object-put (codes "a.txt") (codes "/a.txt") (codes "text/plain") (codes "hi") 1000000000
      copied meta_saved none_stored page refl
