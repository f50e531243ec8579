-- ===== src/Store/Listing/Examples.antt =====
-- Listings by internal/store/namespace.go, in memory.
use xsync.Prelude.{ℕ, zero, suc, ◌≡◌, refl, true, false, some, none, [], ◌∷◌, ◌++◌}
use xsync.Prelude.Bytes.{Bytes, codes, bytes_eq, bytes_lt, has_prefix, take}
use xsync.Prelude.Assoc.{lookup, insert, from_key}
use xsync.Bolt.Memory.{memory, Bucket}
use xsync.Model.{ObjectVersion}
use xsync.Store.Keys.{ns_key}
use xsync.Store.Tx.{Db}
use xsync.Store.Publish.{object_of}
use xsync.Store.Run.{empty_store}
use xsync.Store.Handle.{new_upload, truncating}
use xsync.Store.Handle.Open.{new_handle}
use xsync.Store.Listing.{fold_key, index, drop, walk, list_keys, list_all}
use xsync.Store.Listing.Selected.{selected}
use xsync.Store.Listing.Complete.{objects_of, list_all-objects}
open memory use {get, put, entries, seek}

abbrev tenant : Bytes
tenant = codes "t"

abbrev object : Bytes → ObjectVersion
object id =
    object_of (new_upload (new_handle tenant id [] truncating false) id [] 1) [] [] 3 1 2 none

-- The names "a/1", "a/2" and "b".
abbrev filled : Db Bucket
filled = record empty_store.db {
  namespace =
      put
        (put (put empty_store.db.namespace (ns_key tenant (codes "b")) (codes "3"))
          (ns_key tenant (codes "a/1")) (codes "1"))
        (ns_key tenant (codes "a/2")) (codes "2");
  objects =
      put
        (put (put empty_store.db.objects (codes "1") (object (codes "1"))) (codes "2")
          (object (codes "2")))
        (codes "3") (object (codes "3"));
}

all_objects :
    list_all filled tenant []
    ≡ some (object (codes "1") ∷ object (codes "2") ∷ object (codes "3") ∷ [])
unfolding list_all ns_key empty_store lookup insert from_key bytes_eq bytes_lt has_prefix take
all_objects = refl

-- Folded at the slash, a page of one entry.
first_page :
    list_keys 9 filled tenant [] (codes "/") [] 1
    ≡ some (record {
      objects = [];
      common_prefixes = codes "a/" ∷ [];
      truncated = true;
      next_after = codes "a/";
    })
unfolding list_keys ns_key empty_store lookup insert from_key bytes_eq bytes_lt has_prefix take
first_page = refl

second_page :
    list_keys 9 filled tenant [] (codes "/") (codes "a/") 1
    ≡ some (record {
      objects = object (codes "3") ∷ [];
      common_prefixes = [];
      truncated = false;
      next_after = codes "b";
    })
unfolding list_keys ns_key empty_store lookup insert from_key bytes_eq bytes_lt has_prefix take
second_page = refl

list_all-objects_example :
    list_all filled tenant (codes "a")
    ≡ some (
        objects_of filled tenant
          (codes "a")
          (selected tenant (codes "a") [] (entries filled.namespace)))
list_all-objects_example = list_all-objects filled tenant (codes "a")

-- A name that goes on with the byte 255 after the slash.
abbrev odd : Db Bucket
odd = record empty_store.db {
  namespace = put empty_store.db.namespace (ns_key tenant (codes "a/" ++ 255 ∷ [])) (codes "1");
}

-- After its common prefix the seek finds it again and again: no fuel is enough.
listing_hangs : (fuel : ℕ) → list_keys fuel odd tenant [] (codes "/") (codes "a/") 1000 ≡ none
unfolding list_keys walk ns_key empty_store insert from_key bytes_eq bytes_lt has_prefix take index
    drop fold_key
listing_hangs zero = refl
listing_hangs (suc fuel) = listing_hangs fuel
