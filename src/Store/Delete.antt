-- ===== src/Store/Delete.antt =====
-- `deleteObjectTx` of internal/store/delivery.go. One reading of the clock serves a transaction.
use xsync.Prelude.{Bool, true, false, Option, none, some, [], if◌then◌else◌}
use xsync.Prelude.Bytes.{Bytes, bytes_eq}
use xsync.Prelude.Int.{pos, ◌+ℤ◌, ◌-ℤ◌}
use xsync.Bolt.{Bolt}
use xsync.Model.{State, ObjectVersion}
use xsync.Store.Keys.{Instant, ns_key, time_id_key, parked_key}
use xsync.Store.Tx.{Tx, Delta, move}
use xsync.Store.Queue.{dequeue}

-- string(v) of what a bucket returned: nil is the empty text.
unfoldable pub or_empty : Option Bytes → Bytes
or_empty none = []
or_empty (some v) = v

-- != nil
abbrev pub is_some {ℓ} : {A : Type ℓ} → Option A → Bool
is_some none = false
is_some (some a) = true

-- A legacy DELETE_PENDING object was never counted by state, nor its bytes.
unfoldable pub uncount : Delta → ObjectVersion → Delta
unfolding move
uncount d o = elim o.state [
  | State.delete_pending ↦ move d (record o { size = 0 }) none none
  | s ↦ move d o (some s) none
]

module _ ⦃bolt : Bolt⦄ where
  open bolt use {Bucket, get, put, delete}

  -- The path, if it still names this object.
  unfoldable pub drop_name : Tx Bucket → ObjectVersion → Tx Bucket
  unfolding or_empty
  drop_name tx o =
      let key = ns_key o.tenant o.path in
      if bytes_eq (or_empty (get tx.namespace key)) o.id
      then record tx { db = record tx.db { namespace = delete tx.namespace key } }
      else tx

  -- The claim, if it is still there.
  unfoldable pub drop_claim : Tx Bucket → Bytes → Tx Bucket
  drop_claim tx lease =
      if is_some (get tx.claims lease)
      then record tx {
        db = record tx.db { claims = delete tx.claims lease };
        delta = record tx.delta { claims = tx.delta.claims -ℤ pos 1 };
      }
      else tx

  unfoldable pub drop_lease : Tx Bucket → ObjectVersion → Tx Bucket
  unfolding drop_claim
  drop_lease tx o =
      if bytes_eq o.lease_id []
      then tx
      else let tx' = drop_claim tx o.lease_id in
        record tx' {
          db = record tx'.db { leases = delete tx'.leases (time_id_key o.lease_until o.id) };
        }

  unfoldable pub drop_state_index : Tx Bucket → ObjectVersion → State → Tx Bucket
  drop_state_index tx o State.parked = record tx {
    db = record tx.db { parked = delete tx.parked (parked_key o.tenant o.parked_at o.id) };
  }
  drop_state_index tx o State.held = record tx {
    db = record tx.db { held = delete tx.held (time_id_key o.created_at o.id) };
  }
  drop_state_index tx o _ = tx

  -- The tombstone, and the blob that is still to unlink.
  unfoldable pub bury : Instant → Tx Bucket → ObjectVersion → Bytes → Tx Bucket
  bury now tx o reason = record tx {
    db = record tx.db {
      tombstones =
          put tx.tombstones o.id
            (record { object_id = o.id; tenant = o.tenant; reason = reason; deleted_at = now });
      tomb_times = put tx.tomb_times (time_id_key now o.id) tt;
      gc = put tx.gc o.id (record { tenant = o.tenant; blob = o.blob_path; size = o.size });
    };
    delta = record tx.delta { gc = tx.delta.gc +ℤ pos 1 };
  }

  unfoldable pub drop_record : Tx Bucket → ObjectVersion → Tx Bucket
  unfolding uncount
  drop_record tx o =
      if is_some (get tx.objects o.id)
      then record tx {
        db = record tx.db { objects = delete tx.objects o.id };
        delta = uncount tx.delta o;
      }
      else tx

  unfoldable pub delete_object_tx : Instant → Tx Bucket → ObjectVersion → Bytes → Tx Bucket
  unfolding drop_name dequeue drop_lease drop_state_index bury drop_record
  delete_object_tx now tx o reason =
      let (tx', o') = dequeue (drop_name tx o) o in
      drop_record (bury now (drop_state_index (drop_lease tx' o') o' o'.state) o' reason) o'
