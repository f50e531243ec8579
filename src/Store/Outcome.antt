-- ===== src/Store/Outcome.antt =====
-- `Requeue`, `DeleteObject`, `Commit` and `UpdateObject` of internal/store/delivery.go: the closures
-- that run in a write transaction.
use xsync.Prelude.{ℕ, ◌≡◌, true, not, ◌&&◌, ◌||◌, Option, none, some, ◌==◌, if◌then◌else◌}
use xsync.Prelude.Bytes.{Bytes, codes, bytes_eq}
use xsync.Bolt.{Bolt}
use xsync.Model.{State, ObjectVersion}
use xsync.Store.Error.{Error, Result, ok, guard, or_fail, ◌>>=◌, ◌>>◌}
use xsync.Store.Keys.{Instant, parked_key}
use xsync.Store.Tx.{Tx, move}
use xsync.Store.Queue.{enqueue}
use xsync.Store.Delete.{drop_name, delete_object_tx}
use xsync.Store.Delivery.{equal_fold, state_eq, put_object}

-- What `Commit` reports: the object it deleted, that it was deleted before, or an error.
pub data Outcome : Type 0 where
  deleted : ObjectVersion → Outcome
  already_deleted : Outcome
  refused : Error → Outcome

-- The tests of `Commit` on the object, in their order.
unfoldable pub commit_verdict : Option ObjectVersion → Bytes → Bytes → Bytes → ℕ → Outcome
unfolding equal_fold state_eq
commit_verdict none tenant lease digest size = refused Error.not_found
commit_verdict (some o) tenant lease digest size =
    if not (bytes_eq o.tenant tenant)
    then refused Error.not_found
    else if not (bytes_eq o.lease_id lease) || not (state_eq o.state State.leased)
    then refused Error.lease_mismatch
    else if not (o.size == size) || not (equal_fold o.sha256 digest)
    then refused Error.conflict
    else deleted o

-- `UpdateObject` is for the protocol's metadata: it refuses a change of the state or of the path,
-- and its callers leave what the indexes are kept by.
pub record IsMetadata (o o' : ObjectVersion) : Type 0 where
  pub id : o'.id ≡ o.id
  pub tenant : o'.tenant ≡ o.tenant
  pub queue_seq : o'.queue_seq ≡ o.queue_seq
  pub visible_at : o'.visible_at ≡ o.visible_at
  pub lease_id : o'.lease_id ≡ o.lease_id
  pub lease_until : o'.lease_until ≡ o.lease_until
  pub created_at : o'.created_at ≡ o.created_at
  pub parked_at : o'.parked_at ≡ o.parked_at

module _ ⦃bolt : Bolt⦄ where
  open bolt use {Bucket, get, put, delete}

  -- An object of the tenant.
  unfoldable pub own_object : Tx Bucket → Bytes → Bytes → Result ObjectVersion
  own_object tx tenant id = do
    o ← or_fail (get tx.objects id) Error.not_found
    guard (bytes_eq o.tenant tenant) Error.not_found
    ok o

  unfoldable pub requeue_tx : Instant → Tx Bucket → Bytes → Bytes → Result (Tx Bucket)
  unfolding own_object enqueue put_object state_eq
  requeue_tx now tx tenant id = do
    o ← own_object tx tenant id
    guard (state_eq o.state State.parked) Error.conflict
    let tx' : Tx Bucket = record tx {
      db = record tx.db { parked = delete tx.parked (parked_key o.tenant o.parked_at o.id) };
    }
    let queued : Tx Bucket × ObjectVersion =
        enqueue tx'
          (record o { state = State.ready; attempts = 0; parked_at = 0; updated_at = now }) now
    ok (
        put_object
          (record (queued.0) {
            delta = move queued.0.delta queued.1 (some State.parked) (some State.ready);
          })
          queued.1)

  -- The object that is no longer in the catalog comes with the new state: its blob is unlinked
  -- after the commit. A leased one is only retracted.
  unfoldable pub delete_object :
      Instant → Tx Bucket → Bytes → Bytes → Bytes → Result (Tx Bucket × Option ObjectVersion)
  unfolding own_object drop_name put_object state_eq
  delete_object now tx tenant id reason = do
    o ← own_object tx tenant id
    if state_eq o.state State.leased
        then ok (put_object (drop_name tx o) (record o { retracted = true }), none)
        else ok (delete_object_tx now tx o reason, some o)

  -- What the transaction does on a verdict.
  unfoldable pub carry_out : Instant → Tx Bucket → Outcome → Tx Bucket × Outcome
  carry_out now tx (deleted o) = (delete_object_tx now tx o (codes "committed"), deleted o)
  carry_out now tx r = (tx, r)

  unfoldable pub commit_tx :
      Instant → Tx Bucket → Bytes → Bytes → Bytes → Bytes → ℕ → Tx Bucket × Outcome
  unfolding commit_verdict carry_out
  commit_tx now tx tenant id lease digest size = elim (get tx.tombstones id) [
    | some t ↦ (tx, if bytes_eq t.tenant tenant then already_deleted else refused Error.not_found)
    | none ↦ carry_out now tx (commit_verdict (get tx.objects id) tenant lease digest size)
  ]

  -- `update` is the caller's function; the object goes under the id that it was asked for.
  unfoldable pub update_object :
      Instant → Tx Bucket → Bytes → (ObjectVersion → Result ObjectVersion) → Result (Tx Bucket)
  unfolding state_eq
  update_object now tx id update = do
    o ← or_fail (get tx.objects id) Error.not_found
    o' ← update o
    guard (state_eq o'.state o.state && bytes_eq o'.path o.path) Error.other
    ok (record tx {
      db = record tx.db { objects = put tx.objects id (record o' { updated_at = now }) };
    })
