-- ===== src/Store/Index/Outcomes.antt =====
-- The catalog under `Requeue`, `DeleteObject` and `Commit` of internal/store/delivery.go.
use xsync.Prelude.{
  ℕ, ◌≡◌, refl, sym, subst, ◌∙◌, true, ◌&&◌, Option, none, some, if_intro, arith, inl, inr,
  Option-cases,
}
use xsync.Prelude.Bytes.{Bytes, bytes_eq, bytes_eq_iff, Lacks, codes}
use xsync.Bolt.{Bolt}
use xsync.Model.{State, ObjectVersion}
use xsync.Store.Error.{Error, Result, ok}
use xsync.Store.Ensures.{Ensures, Ensures-or_fail, Ensures-guard, Ensures-bind}
use xsync.Store.Keys.{Instant, nul, parked_key}
use xsync.Store.Tx.{Tx, Db}
use xsync.Store.Delete.{drop_name}
use xsync.Store.Delivery.{state_eq}
use xsync.Store.Outcome.{
  own_object, requeue_tx, delete_object, carry_out, commit_tx, update_object, IsMetadata,
  commit_verdict, Outcome, deleted,
}
use xsync.Store.Index.{IsIndexed, IsConsistent}
use xsync.Store.Index.Framing.{Frame-same, Frame-refl}
use xsync.Store.Index.Deletion.{delete_object_tx-IsConsistent}
use xsync.Store.Index.Placing.{put_object-IsConsistent, tail-IsConsistent}
use xsync.Store.Index.Operations.{Consistent, found_clean}

module _ ⦃bolt : Bolt⦄ where
  open bolt use {Bucket, get, put, delete}

  own_object_lem :
      (tx : Tx Bucket) (tenant id : Bytes) (o : ObjectVersion)
      → own_object tx tenant id ≡ ok o
      → (get tx.objects id ≡ some o) × (o.tenant ≡ tenant)
  unfolding own_object
  own_object_lem tx tenant id o h = ground (arith, bytes_eq_iff o.tenant tenant)

  -- `Requeue` puts a parked object back into both queues.
  pub requeue_tx-IsConsistent :
      (now : Instant) (tx : Tx Bucket) (tenant id : Bytes)
      → Consistent tx
      → Ensures Consistent (requeue_tx now tx tenant id)
  unfolding requeue_tx
  requeue_tx-IsConsistent now tx tenant id v =
      Ensures-bind Consistent (own_object tx tenant id) _ (λ o e.
        Ensures-guard Consistent (state_eq o.state State.parked) Error.conflict _ (λ p.
          tail-IsConsistent tx
            (record tx {
              db = record tx.db {
                parked = delete tx.parked (parked_key o.tenant o.parked_at o.id);
              };
            })
            (record o { state = State.ready; attempts = 0; parked_at = 0; updated_at = now }) now v
            (Frame-same o.id tx.db _ refl refl refl refl)
            (found_clean tx id o v (own_object_lem tx tenant id o e).0) refl))

  pub IsIndexed-same :
      (a b : Db Bucket) (k : Bytes) (o : ObjectVersion)
      → IsIndexed a k o
      → b.queue ≡ a.queue
      → b.queue_seg ≡ a.queue_seg
      → b.leases ≡ a.leases
      → IsIndexed b k o
  IsIndexed-same a b k o i q s l = record {
    own_id = i.own_id;
    id_clean = i.id_clean;
    queued = λ r. (rw q (i.queued r).0, rw s (i.queued r).1, (i.queued r).2);
    unqueued = i.unqueued;
    leased = λ r. rw l (i.leased r);
  }

  -- Marking an object as retracted keeps its indexes right.
  pub retracted-IsConsistent :
      (a b : Db Bucket) (k : Bytes) (o : ObjectVersion)
      → IsConsistent a
      → get a.objects k ≡ some o
      → b.objects ≡ a.objects
      → b.queue ≡ a.queue
      → b.queue_seg ≡ a.queue_seg
      → b.leases ≡ a.leases
      → IsConsistent (record b { objects = put b.objects o.id (record o { retracted = true }) })
  retracted-IsConsistent a b k o v f e q s l =
      let at : IsIndexed a o.id o =
        subst (λ j. IsIndexed a j o) (sym (v.at_key k o f).own_id) (v.at_key k o f) in
      let i = IsIndexed-same a b o.id o at q s l in
      put_object-IsConsistent a b (record o { retracted = true }) v (Frame-same o.id a b e q s l)
        (record {
          own_id = refl;
          id_clean = i.id_clean;
          queued = i.queued;
          unqueued = i.unqueued;
          leased = i.leased;
        })

  -- `drop_name` changes no bucket but the namespace.
  pub drop_name-same :
      (tx : Tx Bucket) (o : ObjectVersion)
      → let t = drop_name tx o in
        (t.objects ≡ tx.objects)
        × (t.queue ≡ tx.queue)
        × (t.queue_seg ≡ tx.queue_seg)
        × (t.leases ≡ tx.leases)
  unfolding drop_name
  drop_name-same tx o = ground arith

  -- `DeleteObject` retracts a leased object and deletes any other.
  pub delete_object-IsConsistent :
      (now : Instant) (tx : Tx Bucket) (tenant id reason : Bytes)
      → Consistent tx
      → Ensures
          (λ (r : Tx Bucket × Option ObjectVersion). Consistent r.0)
          (delete_object now tx tenant id reason)
  unfolding delete_object
  delete_object-IsConsistent now tx tenant id reason v =
      let P : Tx Bucket × Option ObjectVersion → Type 0 = (λ r. Consistent r.0) in
      Ensures-bind P (own_object tx tenant id) _ (λ o e.
        let f = (own_object_lem tx tenant id o e).0 in
        if_intro (Ensures P) (state_eq o.state State.leased)
          (λ l.
            let same = drop_name-same tx o in
            retracted-IsConsistent tx.db (drop_name tx o).db id o v f same.0 same.1 same.2 same.3)
          (λ _.
            delete_object_tx-IsConsistent now tx tx o reason v (Frame-refl o.id tx.db)
              (found_clean tx id o v f)))

  -- `UpdateObject` keeps the catalog consistent, if the caller's function leaves what the indexes
  -- are kept by.
  pub update_object-IsConsistent :
      (now : Instant) (tx : Tx Bucket) (id : Bytes) (update : ObjectVersion → Result ObjectVersion)
      → ((o o' : ObjectVersion) → update o ≡ ok o' → IsMetadata o o')
      → Consistent tx
      → Ensures Consistent (update_object now tx id update)
  unfolding update_object state_eq
  update_object-IsConsistent now tx id update m v =
      Ensures-or_fail Consistent (get tx.objects id) Error.not_found _ (λ o e.
        Ensures-bind Consistent (update o) _ (λ o' u.
          Ensures-guard Consistent (state_eq o'.state o.state && bytes_eq o'.path o.path)
            Error.other _
            (λ g.
              let k = m o o' u in
              let i = v.at_key id o e in
              let same_state : o'.state ≡ o.state = ground arith in
              let same_path : o'.path ≡ o.path = ground (arith, bytes_eq_iff o'.path o.path) in
              let named : id ≡ o'.id = sym i.own_id ∙ sym k.id in
              let p : ObjectVersion = record o' { updated_at = now } in
              subst (λ (j : Bytes). IsConsistent (record tx.db { objects = put tx.objects j p }))
                (sym named)
                (put_object-IsConsistent tx.db tx.db p v (Frame-refl o'.id tx.db) (record {
                  own_id = refl;
                  id_clean = subst (Lacks nul) named i.id_clean;
                  queued = λ r.
                      rw (k.tenant, k.queue_seq, k.visible_at, same_path, ← named)
                        (i.queued (sym same_state ∙ r));
                  unqueued = λ r. k.queue_seq ∙ i.unqueued (λ s. r (same_state ∙ s));
                  leased =
                      λ l. rw (k.lease_until, k.lease_id, ← named) (i.leased (sym same_state ∙ l));
                })))))

  -- A commit that deletes is of the object that stands under the id.
  commit_verdict_found :
      (f : Option ObjectVersion) (tenant lease digest : Bytes) (size : ℕ) (o : ObjectVersion)
      → commit_verdict f tenant lease digest size ≡ deleted o
      → f ≡ some o
  unfolding commit_verdict
  commit_verdict_found none tenant lease digest size o h = cc
  commit_verdict_found (some p) tenant lease digest size o h = ground arith

  carry_out-IsConsistent :
      (now : Instant) (tx : Tx Bucket) (id : Bytes) (r : Outcome)
      → ((o : ObjectVersion) → r ≡ deleted o → get tx.objects id ≡ some o)
      → Consistent tx
      → Consistent (carry_out now tx r).0
  unfolding carry_out
  carry_out-IsConsistent now tx id (deleted o) h v =
      delete_object_tx-IsConsistent now tx tx o (codes "committed") v (Frame-refl o.id tx.db)
        (found_clean tx id o v (h o refl))
  carry_out-IsConsistent now tx id _ h v = v

  -- `Commit` keeps the catalog consistent, on every outcome.
  pub commit_tx-IsConsistent :
      (now : Instant) (tx : Tx Bucket) (tenant id lease digest : Bytes) (size : ℕ)
      → Consistent tx
      → Consistent (commit_tx now tx tenant id lease digest size).0
  unfolding commit_tx
  commit_tx-IsConsistent now tx tenant id lease digest size v =
      elim (Option-cases (get tx.tombstones id)) [
        | inr (t, e) ↦ rw (e, commit_tx) v
        | inl e ↦
            rw (e, commit_tx)
              (carry_out-IsConsistent now tx id
                (commit_verdict (get tx.objects id) tenant lease digest size)
                (λ o h. commit_verdict_found (get tx.objects id) tenant lease digest size o h) v)
      ]
