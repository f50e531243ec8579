-- ===== src/Store/Rebuild.antt =====
-- `rebuildIndexes` and `sortObjectsByVersion` of internal/store/schema.go: the index buckets anew
-- from the primary records.
use xsync.Prelude.{Bool, false, ◌&&◌, ◌||◌, none, some, List, [], ◌∷◌, ◌==◌, ltb, if◌then◌else◌}
use xsync.Prelude.Bytes.{Bytes, bytes_eq, codes}
use xsync.Prelude.Assoc.{Assoc}
use xsync.Bolt.{Bolt}
use xsync.Model.{State, ObjectVersion, Upload, Claim, Tombstone}
use xsync.Store.Keys.{Instant, time_id_key, parked_key, upload_path_key}
use xsync.Store.Tx.{Tx, Db, no_delta}
use xsync.Store.Queue.{enqueue}
use xsync.Store.Delete.{delete_object_tx}
use xsync.Store.Delivery.{state_eq, put_object}

-- Version order, which is publish order; equal versions by age.
unfoldable pub version_before : ObjectVersion → ObjectVersion → Bool
version_before a b =
    if a.version == b.version then ltb a.created_at b.created_at else ltb a.version b.version

unfoldable pub insert_by_version : ObjectVersion → List ObjectVersion → List ObjectVersion
unfolding version_before
insert_by_version o [] = o ∷ []
insert_by_version o (p ∷ ps) = if version_before p o then p ∷ insert_by_version o ps else o ∷ p ∷ ps

unfoldable pub sort_objects_by_version : Assoc ObjectVersion → List ObjectVersion
unfolding insert_by_version
sort_objects_by_version [] = []
sort_objects_by_version ((k, o) ∷ rest) = insert_by_version o (sort_objects_by_version rest)

module _ ⦃bolt : Bolt⦄ where
  open bolt use {Bucket, create, get, put, delete, entries}

  -- DeleteBucket and CreateBucket of each index bucket.
  unfoldable pub clear_indexes : Db Bucket → Db Bucket
  clear_indexes db = record db {
    queue = create;
    queue_seg = create;
    leases = create;
    upload_paths = create;
    stale = create;
    held = create;
    parked = create;
    tomb_times = create;
  }

  unfoldable pub index_leased : Tx Bucket → ObjectVersion → Tx Bucket
  unfolding put_object
  index_leased tx o =
      put_object
        (record tx {
          db = record tx.db { leases = put tx.leases (time_id_key o.lease_until o.id) o.lease_id };
        })
        (record o { queue_seq = 0; queue_key = [] })

  unfoldable pub index_ready : Tx Bucket → ObjectVersion → Tx Bucket
  unfolding enqueue put_object
  index_ready tx o =
      let (tx', o') = enqueue tx (record o { queue_key = [] }) o.visible_at in put_object tx' o'

  -- The body of the loop over the objects; the counter delta is thrown away in the end.
  unfoldable pub index_object : Instant → Tx Bucket → ObjectVersion → State → Tx Bucket
  unfolding index_leased index_ready
  index_object now tx o State.ready = index_ready tx o
  index_object now tx o State.leased = index_leased tx o
  index_object now tx o State.held = record tx {
    db = record tx.db { held = put tx.held (time_id_key o.created_at o.id) tt };
  }
  index_object now tx o State.parked = record tx {
    db = record tx.db { parked = put tx.parked (parked_key o.tenant o.parked_at o.id) tt };
  }
  index_object now tx o State.delete_pending = delete_object_tx now tx o (codes "committed")
  index_object now tx o _ = tx

  unfoldable pub index_objects : Instant → Tx Bucket → List ObjectVersion → Tx Bucket
  unfolding index_object
  index_objects now tx [] = tx
  index_objects now tx (o ∷ os) = index_objects now (index_object now tx o o.state) os

  unfoldable pub index_uploads : Db Bucket → Assoc Upload → Db Bucket
  unfolding state_eq
  index_uploads db [] = db
  index_uploads db ((k, u) ∷ rest) =
      index_uploads
        (record db {
          upload_paths = put db.upload_paths (upload_path_key u.tenant u.path u.id) tt;
          stale =
              if state_eq u.state State.interrupted || state_eq u.state State.failed
              then put db.stale (time_id_key u.updated_at u.id) tt
              else db.stale;
        })
        rest

  -- The claim's object is still leased under it.
  unfoldable pub claim_holds : Db Bucket → Bytes → Claim → Bool
  unfolding state_eq
  claim_holds db k c = elim (get db.objects c.object_id) [
    | none ↦ false
    | some o ↦ state_eq o.state State.leased && bytes_eq o.lease_id k
  ]

  unfoldable pub drop_stale_claims : Db Bucket → Assoc Claim → Db Bucket
  unfolding claim_holds
  drop_stale_claims db [] = db
  drop_stale_claims db ((k, c) ∷ rest) =
      drop_stale_claims
        (record db { claims = if claim_holds db k c then db.claims else delete db.claims k }) rest

  unfoldable pub index_tombstones : Db Bucket → Assoc Tombstone → Db Bucket
  index_tombstones db [] = db
  index_tombstones db ((k, t) ∷ rest) =
      index_tombstones
        (record db { tomb_times = put db.tomb_times (time_id_key t.deleted_at k) tt }) rest

  unfoldable pub rebuild_indexes : Instant → Db Bucket → Db Bucket
  unfolding clear_indexes sort_objects_by_version index_objects index_uploads drop_stale_claims
      index_tombstones
  rebuild_indexes now db =
      let start : Tx Bucket = record { db = clear_indexes db; delta = no_delta } in
      let indexed : Tx Bucket =
        index_objects now start (sort_objects_by_version (entries db.objects)) in
      let uploaded : Db Bucket = index_uploads indexed.db (entries indexed.uploads) in
      let claimed : Db Bucket = drop_stale_claims uploaded (entries uploaded.claims) in
      index_tombstones claimed (entries claimed.tombstones)
