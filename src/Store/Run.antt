-- ===== src/Store/Run.antt =====
-- `update` of internal/store/store.go, which runs a closure in a write transaction, and the runs of
-- a store: the write transactions on objects, one after the other, as bbolt orders them.
pub mod Calls
pub mod Consistency
use xsync.Prelude.{ℕ, ◌≡◌, Bool, Option, none, some, List, [], ◌∷◌}
use xsync.Prelude.Bytes.{Bytes, Lacks}
use xsync.Bolt.{Bolt}
use xsync.Model.{Upload, ObjectVersion}
use xsync.Store.Error.{Error, Result, ok, err, ◌>>=◌}
use xsync.Store.Keys.{Instant, nul}
use xsync.Store.Tx.{Db, Tx, no_delta}
use xsync.Store.Counters.{Counters, zero_stats, apply}
use xsync.Store.Policy.{Policy}
use xsync.Store.Delivery.{ReleaseOptions, release_tx}
use xsync.Store.Outcome.{requeue_tx, delete_object, commit_tx, update_object, IsMetadata}
use xsync.Store.Lease.{renew_tx}
use xsync.Store.Claiming.{Candidate, claim_all}
use xsync.Store.Publish.{ObjectMeta, publish_tx}
use xsync.Store.Calls.{rename_with, remove_at, mkdir_at, remove_dir_at}
use xsync.Store.Maintain.{expire_all, delete_if, reclaim_upload_tx, sweep_tombstones}

-- A write transaction on objects, with what its caller passes. The candidates of a claim and the ids
-- of an expiry come from an earlier read, so they are any lists.
pub data Operation : Type 0 where
  publish : Upload → Bytes → Bytes → ℕ → Option ObjectMeta → Operation
  claim : Bytes → Bytes → ℕ → List Candidate → List Bytes → Operation
  renew : Bytes → Bytes → ℕ → Operation
  release : Bytes → Bytes → ReleaseOptions → Operation
  commit : Bytes → Bytes → Bytes → Bytes → ℕ → Operation
  requeue : Bytes → Bytes → Operation
  delete_one : Bytes → Bytes → Bytes → Operation
  expire : Instant → List Bytes → Operation
  purge : Bytes → (ObjectVersion → Bool) → Bytes → Operation
  remove : Bytes → Bytes → Operation
  rename : Bytes → Bytes → Bytes → Bool → Operation
  mkdir remove_dir : Bytes → Bytes → Operation
  reclaim : Bytes → Instant → Operation
  forget : List Bytes → Instant → Operation
  amend : Bytes → (ObjectVersion → Result ObjectVersion) → Operation

module _ ⦃bolt : Bolt⦄ where
  open bolt use {Bucket, create}

  pub record Store : Type 0 where
    pub db : Db Bucket
    pub count : Counters

  -- A new database file.
  unfoldable pub empty_store : Store
  empty_store = record {
    db = record {
      meta = create;
      objects = create;
      namespace = create;
      uploads = create;
      claims = create;
      tombstones = create;
      gc = create;
      versions = create;
      directories = create;
      queue = create;
      queue_seg = create;
      leases = create;
      upload_paths = create;
      stale = create;
      held = create;
      parked = create;
      tomb_times = create;
    };
    count = record { s = zero_stats; tenants = [] };
  }

  -- An error rolls the transaction back, and the counters with it.
  unfoldable pub update {ℓ} :
      {A : Type ℓ} → Store → (Tx Bucket → Result (Tx Bucket × A)) → Store × Result A
  update s fn = elim (fn (record { db = s.db; delta = no_delta })) [
    | ok (tx, a) ↦ (record { db = tx.db; count = apply s.count tx.delta }, ok a)
    | err e ↦ (s, err e)
  ]

  -- The result of the operation is left out here.
  unfoldable pub perform :
      (Bytes → Policy) → Instant → Operation → Tx Bucket → Result (Tx Bucket × Unit {0})
  perform policy now (publish u blob digest size meta) tx =
      publish_tx (policy u.tenant) now tx u blob digest size meta >>= λ r. ok (r.0, tt)
  perform policy now (claim tenant client ttl cs leases) tx =
      claim_all tenant client ttl now cs leases tx >>= λ r. ok (r.0, tt)
  perform policy now (renew tenant lease ttl) tx =
      renew_tx now tx tenant lease ttl >>= λ r. ok (r.0, tt)
  perform policy now (release tenant lease opts) tx =
      release_tx policy now tx tenant lease opts >>= λ t. ok (t, tt)
  perform policy now (commit tenant id lease digest size) tx =
      ok ((commit_tx now tx tenant id lease digest size).0, tt)
  perform policy now (requeue tenant id) tx = requeue_tx now tx tenant id >>= λ t. ok (t, tt)
  perform policy now (delete_one tenant id reason) tx =
      delete_object now tx tenant id reason >>= λ r. ok (r.0, tt)
  perform policy now (expire later ids) tx = ok ((expire_all policy now later tx ids).0, tt)
  perform policy now (purge id pred reason) tx = ok ((delete_if now tx id pred reason).0, tt)
  perform policy now (remove tenant name) tx = remove_at now tx tenant name >>= λ r. ok (r.0, tt)
  perform policy now (rename tenant old_name new_name overwrite) tx =
      rename_with (policy tenant) now tx tenant old_name new_name overwrite >>= λ r. ok (r.0, tt)
  perform policy now (mkdir tenant name) tx = mkdir_at now tx tenant name >>= λ t. ok (t, tt)
  perform policy now (remove_dir tenant name) tx = remove_dir_at tx tenant name >>= λ t. ok (t, tt)
  perform policy now (reclaim id cutoff) tx = ok ((reclaim_upload_tx tx id cutoff).0, tt)
  perform policy now (forget ids cutoff) tx = ok (sweep_tombstones tx ids cutoff, tt)
  perform policy now (amend id update) tx = update_object now tx id update >>= λ t. ok (t, tt)

  unfoldable pub step : (Bytes → Policy) → Instant → Operation → Store → Store
  unfolding update perform
  step policy now op s = (update s (perform policy now op)).0

  -- The ids of uploads have no NUL (model.NewID writes hexadecimal digits).
  unfoldable pub IsClean : Operation → Type 0
  IsClean (publish u blob digest size meta) = Lacks nul u.id
  IsClean (amend id update) = (o o' : ObjectVersion) → update o ≡ ok o' → IsMetadata o o'
  IsClean _ = Unit

  -- The stores that the transactions make of a new one, whatever their clocks and arguments.
  pub data Reach (policy : Bytes → Policy) : Store → Type 0 where
    start : Reach policy empty_store
    next :
        (now : Instant) (op : Operation) (s : Store)
        → IsClean op
        → Reach policy s
        → Reach policy (step policy now op s)
