-- ===== src/Store/Publish.antt =====
-- `publish` and `place` of internal/store/upload.go: how a complete upload enters the catalog.
use xsync.Prelude.{ℕ, ◌+◌, false, Option, none, some, [], if◌then◌else◌}
use xsync.Prelude.Bytes.{Bytes, bytes_eq, codes}
use xsync.Prelude.Int.{pos, ◌-ℤ◌}
use xsync.Prelude.Assoc.{Assoc}
use xsync.Bolt.{Bolt}
use xsync.Model.{State, ObjectVersion, Upload}
use xsync.Store.Error.{Result, ok, ◌>>◌}
use xsync.Store.Keys.{Instant, ns_key, time_id_key, upload_path_key}
use xsync.Store.Tx.{Tx, move}
use xsync.Store.Queue.{enqueue}
use xsync.Store.Policy.{Policy, held}
use xsync.Store.Delete.{is_some}
use xsync.Store.Delivery.{put_object}
use xsync.Store.Namespace.{check_file_path, replace_path}

pub record ObjectMeta : Type 0 where
  pub etag : Bytes
  pub metadata : Assoc Bytes
  pub tags : Assoc Bytes

-- The object that an upload becomes.
unfoldable pub object_of :
    Upload → Bytes → Bytes → ℕ → ℕ → Instant → Option ObjectMeta → ObjectVersion
object_of u blob digest size version now meta = record {
  id = u.id;
  tenant = u.tenant;
  path = u.path;
  blob_path = blob;
  size = size;
  sha256 = digest;
  etag = elim meta [ none ↦ digest | some m ↦ if bytes_eq m.etag [] then digest else m.etag ];
  metadata = elim meta [ none ↦ [] | some m ↦ m.metadata ];
  tags = elim meta [ none ↦ [] | some m ↦ m.tags ];
  version = version;
  state = State.ready;
  queue_seq = 0;
  queue_key = [];
  visible_at = 0;
  created_at = now;
  updated_at = now;
  lease_id = [];
  lease_client = [];
  lease_until = 0;
  attempts = 0;
  last_error = [];
  parked_at = 0;
  retracted = false;
}

module _ ⦃bolt : Bolt⦄ where
  open bolt use {Bucket, get, put, delete, sequence, next_sequence}

  unfoldable pub drop_upload : Tx Bucket → Upload → Tx Bucket
  drop_upload tx u =
      let tx' : Tx Bucket = record tx {
        db = record tx.db {
          upload_paths = delete tx.upload_paths (upload_path_key u.tenant u.path u.id);
        };
      } in
      if is_some (get tx.uploads u.id)
      then record tx' {
        db = record tx'.db { uploads = delete tx.uploads u.id };
        delta = record tx.delta { uploads = tx.delta.uploads -ℤ pos 1 };
      }
      else tx'

  -- HELD for a temporary name, READY at the tail of the queue for any other.
  unfoldable pub place : Policy → Instant → Tx Bucket → ObjectVersion → Option State → Tx Bucket
  unfolding enqueue put_object
  place pol now tx o from =
      if held pol.hold_patterns o.path
      then put_object
          (record tx {
            db = record tx.db { held = put tx.held (time_id_key o.created_at o.id) tt };
            delta = move tx.delta o from (some State.held);
          })
          (record o { state = State.held })
      else let (tx', o') =
          enqueue tx (record o { state = State.ready }) (now + pol.publish_delay) in
        put_object (record tx' { delta = move tx'.delta o' from (some State.ready) }) o'

  -- The version is a sequence number of its own, and the path names the new object. The victim's
  -- blob is unlinked after the commit.
  unfoldable pub publish_tx :
      Policy
      → Instant
      → Tx Bucket
      → Upload
      → Bytes
      → Bytes
      → ℕ
      → Option ObjectMeta
      → Result (Tx Bucket × Option ObjectVersion)
  unfolding drop_upload place object_of
  publish_tx pol now tx u blob digest size meta =
      if is_some (get tx.objects u.id) then ok (drop_upload tx u, none) else do
        check_file_path tx.db u.tenant u.path
        let numbered : Tx Bucket = record tx {
          db = record tx.db { versions = next_sequence tx.versions };
        }
        let o : ObjectVersion = object_of u blob digest size (sequence numbered.versions) now meta
        let replaced : Tx Bucket × Option ObjectVersion =
            replace_path now numbered u.tenant u.path pol.supersede (codes "superseded")
        let placed : Tx Bucket = place pol now replaced.0 o none
        let named : Tx Bucket = record placed {
          db = record placed.db { namespace = put placed.namespace (ns_key u.tenant u.path) u.id };
        }
        ok (drop_upload named u, replaced.1)
