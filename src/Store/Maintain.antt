-- ===== src/Store/Maintain.antt =====
-- `ExpireLeases`, `reclaimUpload`, `deleteIf` and the passes over the time indexes of
-- internal/store/maintain.go. The scan and the write transaction may see different catalogs, so a
-- scan's result is an argument.
use xsync.Prelude.{
  Bool, false, not, ◌||◌, ◌&&◌, Option, none, some, List, [], ◌∷◌, ltb, if◌then◌else◌,
}
use xsync.Prelude.Bytes.{Bytes, codes}
use xsync.Prelude.Int.{pos, ◌-ℤ◌}
use xsync.Prelude.Assoc.{Assoc}
use xsync.Bolt.{Bolt}
use xsync.Model.{State, ObjectVersion, Upload}
use xsync.Store.Keys.{Instant, time_id_key, parse_time_id_key, upload_path_key, queue_key}
use xsync.Store.Tx.{Tx, Db}
use xsync.Store.Policy.{Policy}
use xsync.Store.Delete.{is_some, drop_claim, delete_object_tx}
use xsync.Store.Delivery.{ReleaseOptions, state_eq, after_delivery}

-- The ids at the head of a time index that lie not after `now` (the lease index).
unfoldable pub due_until {ℓ} : {V : Type ℓ} → Instant → Assoc V → List Bytes
unfolding parse_time_id_key
due_until now [] = []
due_until now ((k, v) ∷ rest) =
    let (at, id) = parse_time_id_key k in
    let more = due_until now rest in if ltb now at then [] else id ∷ more

-- Those before the cutoff (the other indexes).
unfoldable pub due_before {ℓ} : {V : Type ℓ} → Instant → Assoc V → List Bytes
unfolding parse_time_id_key
due_before cutoff [] = []
due_before cutoff ((k, v) ∷ rest) =
    let (at, id) = parse_time_id_key k in
    let more = due_before cutoff rest in if ltb at cutoff then id ∷ more else []

-- The keys before the cutoff (the second loop of the sweep of tombstones).
unfoldable pub keys_before {ℓ} : {V : Type ℓ} → Instant → Assoc V → List Bytes
unfolding parse_time_id_key
keys_before cutoff [] = []
keys_before cutoff ((k, v) ∷ rest) =
    let more = keys_before cutoff rest in
    if ltb (parse_time_id_key k).0 cutoff then k ∷ more else []

abbrev pub lease_expired : ReleaseOptions
lease_expired = record {
  reason = codes "lease expired";
  retry_after = 0;
  permanent = false;
  uncounted = false;
}

module _ ⦃bolt : Bolt⦄ where
  open bolt use {Bucket, get, put, delete, entries}

  -- The lease of the object has lapsed at `now`.
  unfoldable pub has_lapsed : ObjectVersion → Instant → Bool
  unfolding state_eq
  has_lapsed o now = state_eq o.state State.leased && not (ltb now o.lease_until)

  -- One round of the loop: `later` is the clock of `afterDelivery`.
  unfoldable pub expire_one :
      (Bytes → Policy) → Instant → Instant → Tx Bucket → Bytes → Tx Bucket × Option ObjectVersion
  unfolding has_lapsed drop_claim
  expire_one policy now later tx id = elim (get tx.objects id) [
    | none ↦ (tx, none)
    | some o ↦
        if has_lapsed o now
        then (let unleased : Tx Bucket = record tx {
          db = record tx.db { leases = delete tx.leases (time_id_key o.lease_until o.id) };
        } in
            (
              after_delivery policy later (drop_claim unleased o.lease_id) o lease_expired,
              if o.retracted then some o else none,
            ))
        else (tx, none)
  ]

  -- The write transaction of `ExpireLeases`, with the retracted objects whose blobs are to unlink.
  unfoldable pub expire_all :
      (Bytes → Policy) → Instant → Instant → Tx Bucket → List Bytes → Tx Bucket × List ObjectVersion
  expire_all policy now later tx [] = (tx, [])
  expire_all policy now later tx (id ∷ ids) =
      let (tx', gone) = expire_one policy now later tx id in
      let (tx'', more) = expire_all policy now later tx' ids in
      (tx'', elim gone [ none ↦ more | some o ↦ o ∷ more ])

  unfoldable pub due_leases : Db Bucket → Instant → List Bytes
  unfolding due_until
  due_leases db now = due_until now (entries db.leases)

  -- The write transaction of `reclaimUpload`, with the upload whose files are to remove.
  unfoldable pub reclaim_upload_tx : Tx Bucket → Bytes → Instant → Tx Bucket × Option Upload
  unfolding state_eq
  reclaim_upload_tx tx id cutoff = elim (get tx.uploads id) [
    | none ↦ (tx, none)
    | some u ↦
        if (state_eq u.state State.interrupted || state_eq u.state State.failed)
          && ltb u.updated_at cutoff
        then (
          record tx {
            db = record tx.db {
              stale = delete tx.stale (time_id_key u.updated_at u.id);
              upload_paths = delete tx.upload_paths (upload_path_key u.tenant u.path u.id);
              uploads = delete tx.uploads id;
            };
            delta = record tx.delta { uploads = tx.delta.uploads -ℤ pos 1 };
          },
          some u,
        )
        else (tx, none)
  ]

  -- The write transaction of `deleteIf`.
  unfoldable pub delete_if :
      Instant
      → Tx Bucket
      → Bytes
      → (ObjectVersion → Bool)
      → Bytes
      → Tx Bucket × Option ObjectVersion
  delete_if now tx id pred reason = elim (get tx.objects id) [
    | none ↦ (tx, none)
    | some o ↦ if pred o then (delete_object_tx now tx o reason, some o) else (tx, none)
  ]

  -- A HELD object that was never renamed is an abandoned transfer.
  unfoldable pub held_before : Instant → ObjectVersion → Bool
  unfolding state_eq
  held_before cutoff o = state_eq o.state State.held && ltb o.created_at cutoff

  -- The tombstones of `ids`, each with its entry in the time index.
  unfoldable pub drop_tombstones : Tx Bucket → List Bytes → Tx Bucket
  drop_tombstones tx [] = tx
  drop_tombstones tx (id ∷ ids) =
      drop_tombstones
        (record tx {
          db = record tx.db {
            tomb_times = elim (get tx.tombstones id) [
              | none ↦ tx.tomb_times
              | some t ↦ delete tx.tomb_times (time_id_key t.deleted_at id)
            ];
            tombstones = delete tx.tombstones id;
          };
        })
        ids

  unfoldable pub drop_tomb_times : Tx Bucket → List Bytes → Tx Bucket
  drop_tomb_times tx [] = tx
  drop_tomb_times tx (k ∷ ks) =
      drop_tomb_times (record tx { db = record tx.db { tomb_times = delete tx.tomb_times k } }) ks

  -- The write transaction of the sweep, with the ids that the view collected: the tombstones, and
  -- then the index entries before the cutoff whose tombstone was already gone.
  unfoldable pub sweep_tombstones : Tx Bucket → List Bytes → Instant → Tx Bucket
  unfolding drop_tombstones drop_tomb_times keys_before
  sweep_tombstones tx ids cutoff =
      let swept : Tx Bucket = drop_tombstones tx ids in
      drop_tomb_times swept (keys_before cutoff (entries swept.tomb_times))

  -- `Check`, but for the blobs on disk: the objects whose index entry is missing.
  unfoldable pub index_problem : Db Bucket → ObjectVersion → Bool
  unfolding state_eq
  index_problem db o =
      if state_eq o.state State.ready
      then not (ltb 0 o.queue_seq)
        || not (is_some (get db.queue (queue_key o.tenant o.queue_seq o.id)))
      else if state_eq o.state State.leased
      then not (is_some (get db.leases (time_id_key o.lease_until o.id)))
      else false

  unfoldable pub check : Db Bucket → Assoc ObjectVersion → List Bytes
  unfolding index_problem
  check db [] = []
  check db ((k, o) ∷ rest) =
      let more = check db rest in if index_problem db o then o.id ∷ more else more
