-- ===== src/Store/Handle/Examples.antt =====
-- Uploads through the handle of internal/store/upload.go, on a store and a disk in memory.
use xsync.Prelude.{ℕ, ◌≡◌, refl, true, false, some, none, [], ◌∷◌}
use xsync.Prelude.Bytes.{Bytes, take, codes, bytes_eq}
use xsync.Prelude.Int.{pos}
use xsync.Prelude.Assoc.{lookup, insert, from_key}
use xsync.Bolt.Memory.{memory}
use xsync.Store.Error.{Error, Result, ok, err}
use xsync.Store.Policy.{Policy, default_policy}
use xsync.Store.Path.{clean_path}
use xsync.Store.Namespace.{check_file_path}
use xsync.Store.Publish.{publish_tx}
use xsync.Store.Run.{empty_store, update}
use xsync.Upload.Hasher
use xsync.Upload.Hasher.{byte_at, result, chunk_at, drop_chunk}
use xsync.Upload.File.{write_at}
use xsync.Upload.Coverage.{add}
use xsync.Upload.Tracking.{Sparse}
use xsync.Store.Handle.{Os, Session, Disk, truncating, staging_path}
use xsync.Store.Handle.Open.{new_handle, open_upload}
use xsync.Store.Handle.Closing.{close}
use xsync.Store.Handle.Steps.{write, break_off, perform_call, known, Live, opened, called}
use xsync.Store.Handle.Acknowledged.{Acknowledged, close-Acknowledged}
use xsync.Store.Handle.Untouched.{Untouched}
use xsync.Store.Handle.Refused.{close-Untouched}
use xsync.Store.Handle.Parked.{IsParked, close-IsParked}
open memory use {get}

-- What the runs below compute with.
handle : ℕ
unfolding close perform_call open_upload clean_path check_file_path bytes_eq lookup insert from_key
    publish_tx empty_store staging_path write_at add result Hasher.write chunk_at drop_chunk update
handle = 0

abbrev os : Os
os = record {
  now = 7;
  gate = none;
  random_id = some (codes "u1");
  mkdir_ok = true;
  create_ok = true;
  open_ok = true;
  stat_ok = true;
  copied = none;
  wrote = none;
  truncate_ok = true;
  sync_ok = true;
  close_ok = true;
  hash_ok = true;
  rename_ok = true;
  sync_dir_ok = true;
}

abbrev root : Bytes
root = codes "/r"

abbrev text : Error → Bytes
text e = codes "failed"

abbrev sha : Bytes → Bytes
sha p = p

abbrev policy : Bytes → Policy
policy tenant = default_policy

abbrev empty_disk : Disk
empty_disk name = none

abbrev attempt : Result (Session × Result (Unit {0}))
attempt =
    open_upload root text os false default_policy empty_store empty_disk (pos 0) (codes "t")
      (codes "a") (codes "sftp") truncating false

abbrev begun : Session
begun = elim attempt [
  | ok (s, r) ↦ s
  | err e ↦ record {
    store = empty_store;
    disk = empty_disk;
    inflight = pos 0;
    h = new_handle [] [] [] truncating false;
  }
]

begun-attempt : attempt ≡ ok (begun, ok tt)
unfolding handle
begun-attempt = refl

begun-Live : Live root text begun (λ x. none)
begun-Live =
    opened os false default_policy empty_store empty_disk (pos 0) (codes "t") (codes "a")
      (codes "sftp") truncating false begun begun-attempt

-- The second chunk comes first.
abbrev filled : Session
filled =
    perform_call root text os (write (b'x' ∷ b'y' ∷ []) (pos 0))
      (perform_call root text os (write (b'z' ∷ []) (pos 2)) begun)

abbrev first_known : Sparse
first_known = known root text os (write (b'z' ∷ []) (pos 2)) begun (λ x. none)

-- What the client has written.
abbrev all_known : Sparse
all_known =
    known root text os (write (b'x' ∷ b'y' ∷ []) (pos 0))
      (perform_call root text os (write (b'z' ∷ []) (pos 2)) begun) first_known

filled-Live : Live root text filled all_known
filled-Live =
    called os (write (b'x' ∷ b'y' ∷ []) (pos 0)) _ _
      (called os (write (b'z' ∷ []) (pos 2)) begun _ begun-Live)

filled-known : (all_known 0 ≡ some b'x') × (all_known 2 ≡ some b'z') × (all_known 3 ≡ none)
unfolding handle known take byte_at
filled-known = (refl, refl, refl)

filled-closed : (close root text sha policy os filled).1 ≡ ok tt
unfolding handle
filled-closed = refl

filled-open : filled.h.closed ≡ false
unfolding handle
filled-open = refl

filled-new : get filled.store.db.objects (close root text sha policy os filled).0.h.upload.id ≡ none
unfolding handle
filled-new = refl

close-Acknowledged_example :
    Acknowledged root text sha policy all_known filled (close root text sha policy os filled).0
close-Acknowledged_example =
    close-Acknowledged root text sha policy os all_known filled filled-Live filled-open
      filled-closed filled-new

-- The blob cannot be put in place.
abbrev full_disk : Os
full_disk = record os { rename_ok = false }

filled-refused : (close root text sha policy full_disk filled).1 ≡ err Error.other
unfolding handle
filled-refused = refl

close-Untouched_example : Untouched filled (close root text sha policy full_disk filled).0
close-Untouched_example =
    close-Untouched root text sha policy full_disk filled Error.other filled-refused

-- A chunk arrives and the connection breaks.
abbrev broken : Session
broken =
    perform_call root text os (break_off Error.other)
      (perform_call root text os (write (b'x' ∷ b'y' ∷ []) (pos 0)) begun)

abbrev half_known : Sparse
half_known = known root text os (write (b'x' ∷ b'y' ∷ []) (pos 0)) begun (λ x. none)

broken-Live : Live root text broken half_known
unfolding known
broken-Live =
    called os (break_off Error.other) _ half_known
      (called os (write (b'x' ∷ b'y' ∷ []) (pos 0)) begun _ begun-Live)

broken-IsOpen :
    (broken.h.closed ≡ false)
    × (broken.h.resolved ≡ true)
    × (broken.h.fatal ≡ false)
    × (broken.h.failed ≡ some Error.other)
unfolding handle
broken-IsOpen = (refl, refl, refl, refl)

close-IsParked_example :
    ((close root text sha policy os broken).1 ≡ err Error.other)
    × ((content : Bytes) × (broken.disk broken.h.upload.staging_path ≡ some content)
        × IsParked half_known broken content (close root text sha policy os broken).0)
close-IsParked_example =
    close-IsParked root text sha policy os half_known broken Error.other broken-Live broken-IsOpen.0
      broken-IsOpen.1 broken-IsOpen.2 broken-IsOpen.3 refl
