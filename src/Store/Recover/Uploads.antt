-- ===== src/Store/Recover/Uploads.antt =====
-- The uploads of the catalog under the steps of `publish` in internal/store/upload.go.
use xsync.Prelude.{Bool, ◌≡◌, refl, ◌∙◌, Option, if_intro, Option-cases, inl, inr, arith}
use xsync.Prelude.Bytes.{Bytes}
use xsync.Bolt.{Bolt}
use xsync.Model.{State, ObjectVersion}
use xsync.Store.Keys.{Instant, ns_key}
use xsync.Store.Tx.{Tx}
use xsync.Store.Queue.{dequeue, enqueue, put_queue_entries}
use xsync.Store.Policy.{Policy}
use xsync.Store.Delete.{
  drop_name, drop_claim, drop_lease, drop_state_index, bury, drop_record, delete_object_tx,
}
use xsync.Store.Delivery.{state_eq, put_object}
use xsync.Store.Namespace.{retract, drop_path, discard_object, replace_path}
use xsync.Store.Publish.{place}

module _ ⦃bolt : Bolt⦄ where
  open bolt use {Bucket, get}

  drop_name-uploads : (tx : Tx Bucket) (o : ObjectVersion) → (drop_name tx o).uploads ≡ tx.uploads
  unfolding drop_name
  drop_name-uploads tx o = ground arith

  dequeue-uploads : (tx : Tx Bucket) (o : ObjectVersion) → (dequeue tx o).0.uploads ≡ tx.uploads
  unfolding dequeue
  dequeue-uploads tx o = ground arith

  drop_lease-uploads : (tx : Tx Bucket) (o : ObjectVersion) → (drop_lease tx o).uploads ≡ tx.uploads
  unfolding drop_lease drop_claim
  drop_lease-uploads tx o = ground arith

  drop_state_index-uploads :
      (tx : Tx Bucket) (o : ObjectVersion) (st : State)
      → (drop_state_index tx o st).uploads ≡ tx.uploads
  unfolding drop_state_index
  drop_state_index-uploads tx o st = ground arith

  drop_record-uploads :
      (tx : Tx Bucket) (o : ObjectVersion) → (drop_record tx o).uploads ≡ tx.uploads
  unfolding drop_record
  drop_record-uploads tx o = ground arith

  delete_object_tx-uploads :
      (now : Instant) (tx : Tx Bucket) (o : ObjectVersion) (reason : Bytes)
      → (delete_object_tx now tx o reason).uploads ≡ tx.uploads
  unfolding delete_object_tx bury
  delete_object_tx-uploads now tx o reason =
      let d : Tx Bucket × ObjectVersion = dequeue (drop_name tx o) o in
      let t : Tx Bucket = drop_state_index (drop_lease d.0 d.1) d.1 d.1.state in
      drop_record-uploads (bury now t d.1 reason) d.1
      ∙ drop_state_index-uploads (drop_lease d.0 d.1) d.1 d.1.state
      ∙ drop_lease-uploads d.0 d.1
      ∙ dequeue-uploads (drop_name tx o) o
      ∙ drop_name-uploads tx o

  pub place-uploads :
      (pol : Policy) (now : Instant) (tx : Tx Bucket) (o : ObjectVersion) (from : Option State)
      → (place pol now tx o from).uploads ≡ tx.uploads
  unfolding place put_object enqueue put_queue_entries
  place-uploads pol now tx o from = ground arith

  discard_object-uploads :
      (now : Instant) (tx : Tx Bucket) (id : Bytes) (o : ObjectVersion) (reason : Bytes)
      → (discard_object now tx id o reason).0.uploads ≡ tx.uploads
  unfolding discard_object retract
  discard_object-uploads now tx id o reason =
      if_intro (λ (r : Tx Bucket × Option ObjectVersion). r.0.uploads ≡ tx.uploads)
        (state_eq o.state State.leased) (λ _. refl) (λ _. delete_object_tx-uploads now tx o reason)

  pub replace_path-uploads :
      (now : Instant) (tx : Tx Bucket) (tenant p : Bytes) (supersede : Bool) (reason : Bytes)
      → (replace_path now tx tenant p supersede reason).0.uploads ≡ tx.uploads
  unfolding replace_path drop_path
  replace_path-uploads now tx tenant p supersede reason =
      elim (Option-cases (get tx.namespace (ns_key tenant p))) [
        | inl e ↦ simp (e, replace_path)
        | inr (id, e) ↦
            let dropped : Tx Bucket = drop_path tx tenant p in
            rw (e, replace_path)
              (if_intro (λ (r : Tx Bucket × Option ObjectVersion). r.0.uploads ≡ tx.uploads)
                supersede
                (λ _. elim (Option-cases (get dropped.objects id)) [
                  | inl f ↦ rw f refl
                  | inr (o, f) ↦ rw f (discard_object-uploads now dropped id o reason)
                ])
                (λ _. refl))
      ]
