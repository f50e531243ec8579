-- ===== src/Store/Index.antt =====
-- The agreement of the objects bucket with the indexes over it (internal/store/schema.go), which
-- `Check` of internal/store/maintain.go looks for, and what an operation on one object leaves alone.
pub mod Framing
pub mod Deletion
pub mod Placing
pub mod Operations
pub mod Outcomes
pub mod Claims
pub mod Paths
pub mod Moving
pub mod Renaming
pub mod Expiry
pub mod Checking
pub mod Sorting
pub mod Shelves
pub mod Refilling
pub mod Rebuilding
use xsync.Prelude.{ℕ, ◌≡◌, ◌≢◌, ◌<◌, some}
use xsync.Prelude.Bytes.{Bytes, Lacks}
use xsync.Bolt.{Bolt}
use xsync.Model.{State, ObjectVersion}
use xsync.Store.Keys.{Instant, nul, queue_key, queue_seg_key, queue_value, time_id_key}
use xsync.Store.Tx.{Db}

module _ ⦃bolt : Bolt⦄ where
  open bolt use {Bucket, get}

  -- What the queues and the expiry index hold for the object `o` under the key `k`. The indexes of
  -- HELD and PARKED objects are in Store/Index/Shelves.antt.
  pub record IsIndexed (db : Db Bucket) (k : Bytes) (o : ObjectVersion) : Type 0 where
    pub own_id : o.id ≡ k
    pub id_clean : Lacks nul k
    -- a READY object stands in both queues, at its sequence number
    pub queued :
        o.state ≡ State.ready
        → (get db.queue (queue_key o.tenant o.queue_seq k) ≡ some (queue_value o.visible_at o.path))
          × (get db.queue_seg (queue_seg_key o.tenant o.path o.queue_seq k)
              ≡ some (queue_value o.visible_at o.path))
          × (0 < o.queue_seq)
    -- any other has no sequence number
    pub unqueued : o.state ≢ State.ready → o.queue_seq ≡ 0
    -- a LEASED object has its entry in the expiry index
    pub leased :
        o.state ≡ State.leased → get db.leases (time_id_key o.lease_until k) ≡ some o.lease_id

  -- Every object of the catalog is in the queues or the expiry index as its state asks.
  pub record IsConsistent (db : Db Bucket) : Type 0 where
    pub at_key : (k : Bytes) (o : ObjectVersion) → get db.objects k ≡ some o → IsIndexed db k o

  -- From `a` to `b`, nothing changes but what belongs to the object `id`.
  pub record Frame (id : Bytes) (a b : Db Bucket) : Type 0 where
    pub objects : (k : Bytes) → k ≢ id → get b.objects k ≡ get a.objects k
    pub queue :
        (t : Bytes) (n : ℕ) (k : Bytes)
        → Lacks nul k
        → k ≢ id
        → get b.queue (queue_key t n k) ≡ get a.queue (queue_key t n k)
    pub queue_seg :
        (t p : Bytes) (n : ℕ) (k : Bytes)
        → Lacks nul k
        → k ≢ id
        → get b.queue_seg (queue_seg_key t p n k) ≡ get a.queue_seg (queue_seg_key t p n k)
    pub leases :
        (u : Instant) (k : Bytes)
        → k ≢ id
        → get b.leases (time_id_key u k) ≡ get a.leases (time_id_key u k)
