-- ===== src/Store/Recover/Examples.antt =====
-- A recovery by internal/store/maintain.go, in memory: one upload was streaming, another was between
-- the fsync and the rename.
use xsync.Prelude.{ℕ, ◌≡◌, refl, true, false, some, none, [], ◌∷◌}
use xsync.Prelude.Bytes.{Bytes, codes, bytes_eq, bytes_lt}
use xsync.Prelude.Int.{pos}
use xsync.Prelude.Assoc.{lookup, insert, from_key}
use xsync.Bolt.Memory.{memory}
use xsync.Model.{State, Upload}
use xsync.Store.Error.{Error, ok}
use xsync.Store.Policy.{Policy, default_policy}
use xsync.Store.Namespace.{check_file_path}
use xsync.Store.Publish.{publish_tx}
use xsync.Store.Run.{empty_store, update}
use xsync.Store.Handle.{
  Os, Session, Disk, truncating, staging_path, blob_path, put_file, first_some,
}
use xsync.Store.Handle.Open.{new_handle}
use xsync.Store.Handle.Published.{IsStored}
use xsync.Store.Recover.{recover, recover_finalizing}
use xsync.Store.Recover.Recovered.{Recovered}
use xsync.Store.Recover.Finishing.{recover_finalizing-IsStored}
open memory use {get, put}

-- What the runs below compute with.
recovery : ℕ
unfolding recover update publish_tx check_file_path bytes_eq lookup insert from_key empty_store
    staging_path bytes_lt first_some
recovery = 0

abbrev os : Os
os = record {
  now = 9;
  gate = none;
  random_id = none;
  mkdir_ok = true;
  create_ok = true;
  open_ok = true;
  stat_ok = true;
  copied = none;
  wrote = none;
  truncate_ok = true;
  sync_ok = true;
  close_ok = true;
  hash_ok = true;
  rename_ok = true;
  sync_dir_ok = true;
}

abbrev root : Bytes
root = codes "/r"

abbrev text : Error → Bytes
text e = codes "failed"

abbrev sha : Bytes → Bytes
sha p = p

abbrev policy : Bytes → Policy
policy tenant = default_policy

abbrev upload_in : Bytes → State → Upload
upload_in id state = record {
  id = id;
  tenant = codes "t";
  path = id;
  protocol = codes "sftp";
  staging_path = staging_path root (codes "t") id;
  state = state;
  created_at = 1;
  updated_at = 2;
  error = [];
}

abbrev streaming : Upload
streaming = upload_in (codes "a") State.uploading

abbrev publishing : Upload
publishing = upload_in (codes "b") State.finalizing

-- The file of the second upload.
abbrev disk : Disk
disk = put_file (λ name. none) (staging_path root (codes "t") (codes "b")) (b'x' ∷ b'y' ∷ [])

abbrev crashed : Session
crashed = record {
  store = record empty_store {
    db = record empty_store.db {
      uploads = put (put empty_store.db.uploads (codes "a") streaming) (codes "b") publishing;
    };
  };
  disk = disk;
  inflight = pos 0;
  h = new_handle [] [] [] truncating false;
}

publishing-left :
    first_some (disk publishing.staging_path) (disk (blob_path root (codes "t") (codes "b")))
    ≡ some (b'x' ∷ b'y' ∷ [])
unfolding recovery
publishing-left = refl

publishing-finished : (recover_finalizing root text sha policy os publishing crashed).1 ≡ ok tt
unfolding recovery
publishing-finished = refl

publishing-new : get crashed.store.db.objects (codes "b") ≡ none
unfolding recovery
publishing-new = refl

recover_finalizing-IsStored_example :
    IsStored root sha publishing
      (b'x' ∷ b'y' ∷ [])
      (recover_finalizing root text sha policy os publishing crashed).0.disk
      (recover_finalizing root text sha policy os publishing crashed).0.store.db
recover_finalizing-IsStored_example =
    recover_finalizing-IsStored root text sha policy os publishing (b'x' ∷ b'y' ∷ []) crashed refl
      publishing-left publishing-new publishing-finished
