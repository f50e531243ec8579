-- ===== src/Store/Queue.antt =====
-- `enqueue`, `putQueueEntries` and `dequeue` of internal/store/schema.go. They return the object as
-- they leave it.
use xsync.Prelude.{◌==◌, if◌then◌else◌}
use xsync.Bolt.{Bolt}
use xsync.Model.{ObjectVersion}
use xsync.Store.Keys.{Instant, queue_key, queue_seg_key, queue_value}
use xsync.Store.Tx.{Tx}

module _ ⦃bolt : Bolt⦄ where
  open bolt use {Bucket, put, delete, sequence, next_sequence}

  unfoldable pub put_queue_entries : Tx Bucket → ObjectVersion → Tx Bucket
  put_queue_entries tx o =
      let v = queue_value o.visible_at o.path in
      record tx {
        db = record tx.db {
          queue = put tx.queue (queue_key o.tenant o.queue_seq o.id) v;
          queue_seg = put tx.queue_seg (queue_seg_key o.tenant o.path o.queue_seq o.id) v;
        };
      }

  unfoldable pub enqueue : Tx Bucket → ObjectVersion → Instant → Tx Bucket × ObjectVersion
  unfolding put_queue_entries
  enqueue tx o visible =
      let numbered = next_sequence tx.queue in
      let placed = record o { queue_seq = sequence numbered; visible_at = visible } in
      (put_queue_entries (record tx { db = record tx.db { queue = numbered } }) placed, placed)

  -- It must run before the path changes.
  unfoldable pub dequeue : Tx Bucket → ObjectVersion → Tx Bucket × ObjectVersion
  dequeue tx o = if o.queue_seq == 0 then (tx, o) else (
    record tx {
      db = record tx.db {
        queue = delete tx.queue (queue_key o.tenant o.queue_seq o.id);
        queue_seg = delete tx.queue_seg (queue_seg_key o.tenant o.path o.queue_seq o.id);
      };
    },
    record o { queue_seq = 0 },
  )
