-- ===== src/Store/Index/Expiry.antt =====
-- The catalog under the passes of internal/store/maintain.go over the objects.
use xsync.Prelude.{
  ◌≡◌, Bool, true, false, Option, List, [], ◌∷◌, ltb, if_intro, arith, inl, inr, Option-cases,
}
use xsync.Prelude.Bytes.{Bytes}
use xsync.Bolt.{Bolt}
use xsync.Model.{State, ObjectVersion}
use xsync.Store.Keys.{Instant, time_id_key}
use xsync.Store.Tx.{Tx}
use xsync.Store.Policy.{Policy}
use xsync.Store.Delete.{drop_claim}
use xsync.Store.Delivery.{state_eq}
use xsync.Store.Maintain.{has_lapsed, lease_expired, expire_one, expire_all, delete_if}
use xsync.Store.Index.Framing.{Frame-refl, Frame-trans, Frame-delete_lease}
use xsync.Store.Index.Deletion.{drop_claim-Touches, delete_object_tx-IsConsistent}
use xsync.Store.Index.Placing.{after_delivery-IsConsistent}
use xsync.Store.Index.Operations.{Consistent, found_clean}

module _ ⦃bolt : Bolt⦄ where
  open bolt use {Bucket, get, delete}

  pub has_lapsed_lem :
      (o : ObjectVersion) (now : Instant)
      → has_lapsed o now ≡ true
      → (o.state ≡ State.leased) × (ltb now o.lease_until ≡ false)
  unfolding has_lapsed state_eq
  has_lapsed_lem o now h = ground arith

  expire_one-IsConsistent :
      (policy : Bytes → Policy) (now later : Instant) (tx : Tx Bucket) (id : Bytes)
      → Consistent tx
      → Consistent (expire_one policy now later tx id).0
  unfolding expire_one
  expire_one-IsConsistent policy now later tx id v = elim (Option-cases (get tx.objects id)) [
    | inl e ↦ rw (e, expire_one) v
    | inr (o, e) ↦
        let unleased : Tx Bucket = record tx {
          db = record tx.db { leases = delete tx.leases (time_id_key o.lease_until o.id) };
        } in
        rw (e, expire_one)
          (if_intro (λ (r : Tx Bucket × Option ObjectVersion). Consistent r.0) (has_lapsed o now)
            (λ lapsed.
              let leased : o.state ≡ State.leased = (has_lapsed_lem o now lapsed).0 in
              after_delivery-IsConsistent policy later tx (drop_claim unleased o.lease_id) o
                lease_expired v
                (Frame-trans o.id tx.db unleased.db _ (Frame-delete_lease tx.db o.id o.lease_until)
                  (drop_claim-Touches unleased o.lease_id o.id))
                (found_clean tx id o v e) ((v.at_key id o e).unqueued (λ r. cc (leased, r))))
            (λ _. v))
  ]

  -- The write transaction of `ExpireLeases` keeps the catalog consistent, also for ids that are
  -- no longer due.
  pub expire_all-IsConsistent :
      (policy : Bytes → Policy) (now later : Instant) (tx : Tx Bucket) (ids : List Bytes)
      → Consistent tx
      → Consistent (expire_all policy now later tx ids).0
  unfolding expire_all
  expire_all-IsConsistent policy now later tx [] v = v
  expire_all-IsConsistent policy now later tx (id ∷ ids) v =
      expire_all-IsConsistent policy now later (expire_one policy now later tx id).0 ids
        (expire_one-IsConsistent policy now later tx id v)

  -- `deleteIf` keeps the catalog consistent.
  pub delete_if-IsConsistent :
      (now : Instant) (tx : Tx Bucket) (id : Bytes) (pred : ObjectVersion → Bool) (reason : Bytes)
      → Consistent tx
      → Consistent (delete_if now tx id pred reason).0
  unfolding delete_if
  delete_if-IsConsistent now tx id pred reason v = elim (Option-cases (get tx.objects id)) [
    | inl e ↦ rw (e, delete_if) v
    | inr (o, e) ↦
        rw (e, delete_if)
          (if_intro (λ (r : Tx Bucket × Option ObjectVersion). Consistent r.0) (pred o)
            (λ _.
              delete_object_tx-IsConsistent now tx tx o reason v (Frame-refl o.id tx.db)
                (found_clean tx id o v e))
            (λ _. v))
  ]
