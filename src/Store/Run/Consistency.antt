-- ===== src/Store/Run/Consistency.antt =====
-- The catalog under runs of the write transactions of internal/store.
use xsync.Prelude.{
  ◌≡◌, refl, ◌∙◌, ap, Option, none, List, [], ◌∷◌, ◌&&◌, ◌||◌, ltb, if_intro, inl, inr,
  Option-cases,
}
use xsync.Prelude.Bytes.{Bytes}
use xsync.Prelude.Assoc.{lookup}
use xsync.Bolt.{Bolt}
use xsync.Store.Error.{Result, ok, err}
use xsync.Store.Ensures.{Ensures, Ensures-then}
use xsync.Model.{State, Upload}
use xsync.Store.Delivery.{state_eq}
use xsync.Store.Keys.{Instant}
use xsync.Store.Tx.{Tx, no_delta}
use xsync.Store.Policy.{Policy}
use xsync.Store.Maintain.{
  reclaim_upload_tx, keys_before, drop_tombstones, drop_tomb_times, sweep_tombstones,
}
use xsync.Store.Index.{IsConsistent}
use xsync.Store.Index.Operations.{
  Consistent, same-IsConsistent, release_tx-IsConsistent, renew_tx-IsConsistent,
}
use xsync.Store.Index.Outcomes.{
  requeue_tx-IsConsistent, delete_object-IsConsistent, commit_tx-IsConsistent,
  update_object-IsConsistent,
}
use xsync.Store.Run.Calls.{
  remove_at-IsConsistent, rename_with-IsConsistent, mkdir_at-IsConsistent,
  remove_dir_at-IsConsistent,
}
use xsync.Store.Index.Claims.{claim_all-IsConsistent}
use xsync.Store.Index.Paths.{publish_tx-IsConsistent}
use xsync.Store.Index.Expiry.{expire_all-IsConsistent, delete_if-IsConsistent}
use xsync.Store.Run.{
  Operation, publish, claim, renew, release, commit, requeue, delete_one, expire, purge, remove,
  rename, mkdir, remove_dir, reclaim, forget, amend, Store, empty_store, update, perform, step,
  IsClean, Reach, start, next,
}

module _ ⦃bolt : Bolt⦄ where
  open bolt use {Bucket, create, get, get_entries, entries, entries-create}

  get-create : {V : Type 0} (k : Bytes) → get (create {V = V}) k ≡ none
  unfolding lookup
  get-create k = get_entries create k ∙ ap (lookup k) entries-create

  empty_store-IsConsistent : IsConsistent empty_store.db
  unfolding empty_store
  empty_store-IsConsistent = record { at_key = λ k o e. absurd (cc (e, get-create k)) }

  reclaim_upload_tx-IsConsistent :
      (tx : Tx Bucket) (id : Bytes) (cutoff : Instant)
      → Consistent tx
      → Consistent (reclaim_upload_tx tx id cutoff).0
  unfolding reclaim_upload_tx
  reclaim_upload_tx-IsConsistent tx id cutoff v = elim (Option-cases (get tx.uploads id)) [
    | inl e ↦ rw (e, reclaim_upload_tx) v
    | inr (u, e) ↦
        rw (e, reclaim_upload_tx)
          (if_intro (λ (r : Tx Bucket × Option Upload). Consistent r.0)
            ((state_eq u.state State.interrupted || state_eq u.state State.failed)
              && ltb u.updated_at cutoff)
            (λ _. same-IsConsistent tx.db _ v refl refl refl refl) (λ _. v))
  ]

  drop_tombstones-IsConsistent :
      (ids : List Bytes) (tx : Tx Bucket) → Consistent tx → Consistent (drop_tombstones tx ids)
  unfolding drop_tombstones
  drop_tombstones-IsConsistent [] tx v = v
  drop_tombstones-IsConsistent (id ∷ ids) tx v =
      drop_tombstones-IsConsistent ids _ (same-IsConsistent tx.db _ v refl refl refl refl)

  drop_tomb_times-IsConsistent :
      (ks : List Bytes) (tx : Tx Bucket) → Consistent tx → Consistent (drop_tomb_times tx ks)
  unfolding drop_tomb_times
  drop_tomb_times-IsConsistent [] tx v = v
  drop_tomb_times-IsConsistent (k ∷ ks) tx v =
      drop_tomb_times-IsConsistent ks _ (same-IsConsistent tx.db _ v refl refl refl refl)

  sweep_tombstones-IsConsistent :
      (tx : Tx Bucket) (ids : List Bytes) (cutoff : Instant)
      → Consistent tx
      → Consistent (sweep_tombstones tx ids cutoff)
  unfolding sweep_tombstones
  sweep_tombstones-IsConsistent tx ids cutoff v =
      let swept : Tx Bucket = drop_tombstones tx ids in
      drop_tomb_times-IsConsistent (keys_before cutoff (entries swept.tomb_times)) swept
        (drop_tombstones-IsConsistent ids tx v)

  abbrev Kept : Tx Bucket × Unit {0} → Type 0
  Kept r = Consistent r.0

  -- Each of the transactions keeps the catalog consistent.
  perform-IsConsistent :
      (policy : Bytes → Policy) (now : Instant) (op : Operation) (tx : Tx Bucket)
      → IsClean op
      → Consistent tx
      → Ensures Kept (perform policy now op tx)
  unfolding perform IsClean
  perform-IsConsistent policy now (publish u blob digest size meta) tx c v =
      Ensures-then (λ r. Consistent r.0) Kept _ _
        (publish_tx-IsConsistent (policy u.tenant) now tx u blob digest size meta v c) (λ r h. h)
  perform-IsConsistent policy now (claim tenant client ttl cs leases) tx c v =
      Ensures-then (λ r. Consistent r.0) Kept _ _
        (claim_all-IsConsistent tenant client ttl now cs leases tx v) (λ r h. h)
  perform-IsConsistent policy now (renew tenant lease ttl) tx c v =
      Ensures-then (λ r. Consistent r.0) Kept _ _ (renew_tx-IsConsistent now tx tenant lease ttl v)
        (λ r h. h)
  perform-IsConsistent policy now (release tenant lease opts) tx c v =
      Ensures-then Consistent Kept _ _ (release_tx-IsConsistent policy now tx tenant lease opts v)
        (λ r h. h)
  perform-IsConsistent policy now (commit tenant id lease digest size) tx c v =
      commit_tx-IsConsistent now tx tenant id lease digest size v
  perform-IsConsistent policy now (requeue tenant id) tx c v =
      Ensures-then Consistent Kept _ _ (requeue_tx-IsConsistent now tx tenant id v) (λ r h. h)
  perform-IsConsistent policy now (delete_one tenant id reason) tx c v =
      Ensures-then (λ r. Consistent r.0) Kept _ _
        (delete_object-IsConsistent now tx tenant id reason v) (λ r h. h)
  perform-IsConsistent policy now (expire later ids) tx c v =
      expire_all-IsConsistent policy now later tx ids v
  perform-IsConsistent policy now (purge id pred reason) tx c v =
      delete_if-IsConsistent now tx id pred reason v
  perform-IsConsistent policy now (remove tenant name) tx c v =
      Ensures-then (λ r. Consistent r.0) Kept _ _ (remove_at-IsConsistent now tx tenant name v)
        (λ r h. h)
  perform-IsConsistent policy now (rename tenant old_name new_name overwrite) tx c v =
      Ensures-then (λ r. Consistent r.0) Kept _ _
        (rename_with-IsConsistent (policy tenant) now tx tenant old_name new_name overwrite v)
        (λ r h. h)
  perform-IsConsistent policy now (mkdir tenant name) tx c v =
      Ensures-then Consistent Kept _ _ (mkdir_at-IsConsistent now tx tenant name v) (λ r h. h)
  perform-IsConsistent policy now (remove_dir tenant name) tx c v =
      Ensures-then Consistent Kept _ _ (remove_dir_at-IsConsistent tx tenant name v) (λ r h. h)
  perform-IsConsistent policy now (reclaim id cutoff) tx c v =
      reclaim_upload_tx-IsConsistent tx id cutoff v
  perform-IsConsistent policy now (forget ids cutoff) tx c v =
      sweep_tombstones-IsConsistent tx ids cutoff v
  perform-IsConsistent policy now (amend id update) tx c v =
      Ensures-then Consistent Kept _ _ (update_object-IsConsistent now tx id update c v) (λ r h. h)

  committed :
      (r : Result (Tx Bucket × Unit {0})) (s : Store)
      → Ensures Kept r
      → IsConsistent s.db
      → IsConsistent (update s (λ _. r)).0.db
  unfolding update
  committed (ok (tx, a)) s k v = k
  committed (err e) s k v = v

  step-IsConsistent :
      (policy : Bytes → Policy) (now : Instant) (op : Operation) (s : Store)
      → IsClean op
      → IsConsistent s.db
      → IsConsistent (step policy now op s).db
  unfolding step update
  step-IsConsistent policy now op s c v =
      let tx : Tx Bucket = record { db = s.db; delta = no_delta } in
      committed (perform policy now op tx) s (perform-IsConsistent policy now op tx c v) v

  -- In every store that the transactions reach from a new one, whatever their order, their clocks
  -- and their arguments (but that upload ids have no NUL, and that the functions passed to
  -- `UpdateObject` change protocol metadata only), each READY object stands in both queues at its
  -- positive sequence number, with the path and the time that it has, each LEASED object stands in
  -- the expiry index at the end of its lease, with its lease, and no object but a READY one has a
  -- sequence number.
  pub Reach-IsConsistent :
      (policy : Bytes → Policy) (s : Store) → Reach policy s → IsConsistent s.db
  Reach-IsConsistent policy _ start = empty_store-IsConsistent
  Reach-IsConsistent policy _ (next now op s c r) =
      step-IsConsistent policy now op s c (Reach-IsConsistent policy s r)
