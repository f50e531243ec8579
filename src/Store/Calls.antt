-- ===== src/Store/Calls.antt =====
-- The calls of uploaders on names as they send them: `RenameWith`, `Remove`, `Mkdir`, `RemoveDir`,
-- `DirectoryExists` and `Current` of internal/store/namespace.go, which clean a name first; and
-- `AdmitUpload` of internal/store/store.go.
use xsync.Prelude.{
  ℕ, Bool, true, false, not, ◌&&◌, Option, none, some, List, [], ltb, if◌then◌else◌,
}
use xsync.Prelude.Bytes.{Bytes, bytes_eq}
use xsync.Prelude.Int.{ℤ, pos, negsuc}
use xsync.Bolt.{Bolt}
use xsync.Model.{ObjectVersion}
use xsync.Capacity.{Controller, admit_upload}
use xsync.Store.Error.{Error, Result, ok, guard, ◌>>=◌, ◌>>◌}
use xsync.Store.Path.{clean_path}
use xsync.Store.Keys.{Instant}
use xsync.Store.Tx.{Tx, Db, stats_of}
use xsync.Store.Counters.{Counters}
use xsync.Store.Policy.{Policy}
use xsync.Store.Namespace.{remove_tx, mkdir_tx, remove_dir_tx, is_directory, current}
use xsync.Store.Rename.{rename_tx}

module _ ⦃bolt : Bolt⦄ where
  open bolt use {Bucket}

  unfoldable pub rename_with :
      Policy
      → Instant
      → Tx Bucket
      → Bytes
      → Bytes
      → Bytes
      → Bool
      → Result (Tx Bucket × List ObjectVersion)
  rename_with pol now tx tenant old_name new_name overwrite = do
    old_path ← clean_path old_name
    new_path ← clean_path new_name
    guard (not (bytes_eq new_path [])) Error.other
    guard (not (bytes_eq old_path [])) Error.invalid_path
    rename_tx pol now tx tenant old_path new_path overwrite

  unfoldable pub remove_at :
      Instant → Tx Bucket → Bytes → Bytes → Result (Tx Bucket × Option ObjectVersion)
  remove_at now tx tenant name = do clean ← clean_path name; remove_tx now tx tenant clean

  -- The root is there already.
  unfoldable pub mkdir_at : Instant → Tx Bucket → Bytes → Bytes → Result (Tx Bucket)
  mkdir_at now tx tenant name = do
    clean ← clean_path name
    if bytes_eq clean [] then ok tx else mkdir_tx now tx tenant clean

  unfoldable pub remove_dir_at : Tx Bucket → Bytes → Bytes → Result (Tx Bucket)
  remove_dir_at tx tenant name = do
    clean ← clean_path name
    guard (not (bytes_eq clean [])) Error.conflict
    remove_dir_tx tx tenant clean

  unfoldable pub directory_exists : Db Bucket → Bytes → Bytes → Result Bool
  directory_exists db tenant name = do
    clean ← clean_path name
    ok (if bytes_eq clean [] then true else is_directory db tenant clean)

  unfoldable pub current_at : Db Bucket → Bytes → Bytes → Result ObjectVersion
  current_at db tenant name = do clean ← clean_path name; current db tenant clean

at_least : ℤ → ℕ → Bool
at_least (pos n) limit = not (ltb n limit)
at_least (negsuc n) limit = false

-- A store without a gate admits what its own limits allow; a refusal of the gate is passed on.
unfoldable pub admit_upload_of :
    Bool → Option Controller → Policy → Counters → Bytes → Result (Unit {0})
unfolding at_least
admit_upload_of draining gate pol count tenant = do
  guard (not draining) Error.draining
  elim gate [ none ↦ ok tt | some c ↦ admit_upload c ]
  guard
      (not (
        ltb 0 pol.max_stored_bytes
        && at_least (stats_of count.tenants tenant).bytes pol.max_stored_bytes))
      Error.quota
