-- ===== src/Store/Index/Deletion.antt =====
-- The catalog under `deleteObjectTx` of internal/store.
use xsync.Prelude.{◌≡◌, refl, ◌∙◌, ap, none, [], ◌==◌, if◌then◌else◌, if_intro, arith}
use xsync.Prelude.Bytes.{Bytes, bytes_eq, bytes_eq_iff, Lacks}
use xsync.Bolt.{Bolt, get-delete}
use xsync.Model.{State, ObjectVersion}
use xsync.Store.Keys.{Instant, nul, queue_key, queue_seg_key, ns_key}
use xsync.Store.Tx.{Tx}
use xsync.Store.Delete.{
  or_empty, is_some, drop_name, drop_claim, drop_lease, drop_state_index, bury, drop_record,
  delete_object_tx,
}
use xsync.Store.Index.{IsConsistent, Frame}
use xsync.Store.Index.Framing.{
  Frame-same, Frame-refl, Frame-trans, Frame-delete_queue, Frame-delete_lease, Frame-delete_object,
  IsConsistent-Frame,
}

module _ ⦃bolt : Bolt⦄ where
  open bolt use {Bucket, get, delete}

  -- The part of a transaction that belongs to one object.
  abbrev pub Touches : Bytes → Tx Bucket → Tx Bucket → Type 0
  Touches id a b = Frame id a.db b.db

  -- The queue entries of a queued object are gone.
  abbrev pub dequeued : Tx Bucket → ObjectVersion → Tx Bucket
  dequeued tx o = record tx {
    db = record tx.db {
      queue = delete tx.queue (queue_key o.tenant o.queue_seq o.id);
      queue_seg = delete tx.queue_seg (queue_seg_key o.tenant o.path o.queue_seq o.id);
    };
  }

  pub dequeued-Touches :
      (tx : Tx Bucket) (o : ObjectVersion) → Lacks nul o.id → Touches o.id tx (dequeued tx o)
  dequeued-Touches tx o c = Frame-delete_queue tx.db o.id o.tenant o.path o.queue_seq c

  pub drop_name-Touches :
      (tx : Tx Bucket) (o : ObjectVersion) (id : Bytes) → Touches id tx (drop_name tx o)
  unfolding drop_name
  drop_name-Touches tx o id =
      if_intro (Touches id tx)
        (bytes_eq (or_empty (get tx.namespace (ns_key o.tenant o.path))) o.id)
        (λ _. Frame-same id _ _ refl refl refl refl) (λ _. Frame-refl id tx.db)

  pub drop_claim-Touches : (tx : Tx Bucket) (lease id : Bytes) → Touches id tx (drop_claim tx lease)
  unfolding drop_claim
  drop_claim-Touches tx lease id =
      if_intro (Touches id tx) (is_some (get tx.claims lease))
        (λ _. Frame-same id _ _ refl refl refl refl) (λ _. Frame-refl id tx.db)

  pub drop_lease-Touches : (tx : Tx Bucket) (o : ObjectVersion) → Touches o.id tx (drop_lease tx o)
  unfolding drop_lease
  drop_lease-Touches tx o =
      if_intro (Touches o.id tx) (bytes_eq o.lease_id []) (λ _. Frame-refl o.id tx.db)
        (λ _.
          Frame-trans o.id tx.db _ _ (drop_claim-Touches tx o.lease_id o.id)
            (Frame-delete_lease (drop_claim tx o.lease_id).db o.id o.lease_until))

  drop_state_index-Touches :
      (tx : Tx Bucket) (o : ObjectVersion) (s : State) → Touches o.id tx (drop_state_index tx o s)
  unfolding drop_state_index
  drop_state_index-Touches tx o State.parked = Frame-same o.id _ _ refl refl refl refl
  drop_state_index-Touches tx o State.held = Frame-same o.id _ _ refl refl refl refl
  drop_state_index-Touches tx o _ = Frame-refl o.id tx.db

  drop_record-Touches : (tx : Tx Bucket) (o : ObjectVersion) → Touches o.id tx (drop_record tx o)
  unfolding drop_record
  drop_record-Touches tx o =
      if_intro (Touches o.id tx) (is_some (get tx.objects o.id))
        (λ _. Frame-delete_object tx.db o.id) (λ _. Frame-refl o.id tx.db)

  -- The record is gone.
  pub get-drop_record :
      (tx : Tx Bucket) (o : ObjectVersion) → get (drop_record tx o).objects o.id ≡ none
  unfolding drop_record
  get-drop_record tx o =
      if_intro (λ (t : Tx Bucket). get t.objects o.id ≡ none) (is_some (get tx.objects o.id))
        (λ _.
          get-delete tx.objects o.id o.id
          ∙ ap (λ b. if b then none else get tx.objects o.id) ((bytes_eq_iff o.id o.id).1 refl))
        (λ e. ground arith)

  abbrev finish : Instant → Tx Bucket → ObjectVersion → Bytes → Tx Bucket
  finish now tx o reason =
      drop_record (bury now (drop_state_index (drop_lease tx o) o o.state) o reason) o

  bury-Touches :
      (now : Instant) (tx : Tx Bucket) (o : ObjectVersion) (reason : Bytes)
      → Touches o.id tx (bury now tx o reason)
  unfolding bury
  bury-Touches now tx o reason = Frame-same o.id _ _ refl refl refl refl

  finish-Touches :
      (now : Instant) (tx : Tx Bucket) (o : ObjectVersion) (reason : Bytes)
      → Touches o.id tx (finish now tx o reason)
  finish-Touches now tx o reason =
      let t₁ : Tx Bucket = drop_lease tx o in
      let t₂ : Tx Bucket = drop_state_index t₁ o o.state in
      let t₃ : Tx Bucket = bury now t₂ o reason in
      Frame-trans o.id tx.db t₁.db _ (drop_lease-Touches tx o) (
        Frame-trans o.id t₁.db t₂.db _ (drop_state_index-Touches t₁ o o.state) (
          Frame-trans o.id t₂.db t₃.db _ (bury-Touches now t₂ o reason) (drop_record-Touches t₃ o)))

  -- What `deleteObjectTx` does after the name and the queue entries are gone.
  abbrev IsDeleted : Tx Bucket → ObjectVersion → Tx Bucket → Type 0
  IsDeleted tx o t = Touches o.id tx t × (get t.objects o.id ≡ none)

  -- Deleting an object touches nothing of another one, and its record is gone.
  pub delete_object_tx-IsDeleted :
      (now : Instant) (tx : Tx Bucket) (o : ObjectVersion) (reason : Bytes)
      → Lacks nul o.id
      → IsDeleted tx o (delete_object_tx now tx o reason)
  unfolding delete_object_tx
  delete_object_tx-IsDeleted now tx o reason c =
      let named : Tx Bucket = drop_name tx o in
      if_intro (λ (r : Tx Bucket × ObjectVersion). IsDeleted tx o (finish now r.0 r.1 reason))
        (o.queue_seq == 0)
        (λ _. (
          Frame-trans o.id tx.db named.db _ (drop_name-Touches tx o o.id)
              (finish-Touches now named o reason),
          get-drop_record _ o,
        ))
        (λ _.
          let t : Tx Bucket = dequeued named o in
          (
            Frame-trans o.id tx.db named.db _ (drop_name-Touches tx o o.id) (
                Frame-trans o.id named.db t.db _ (dequeued-Touches named o c)
                  (finish-Touches now t (record o { queue_seq = 0 }) reason)),
            get-drop_record _ (record o { queue_seq = 0 }),
          ))

  -- So it keeps a catalog consistent that the transaction has touched at this object only.
  pub delete_object_tx-IsConsistent :
      (now : Instant) (tx₀ tx : Tx Bucket) (o : ObjectVersion) (reason : Bytes)
      → IsConsistent tx₀.db
      → Touches o.id tx₀ tx
      → Lacks nul o.id
      → IsConsistent (delete_object_tx now tx o reason).db
  delete_object_tx-IsConsistent now tx₀ tx o reason v f c =
      let t : Tx Bucket = delete_object_tx now tx o reason in
      let gone = delete_object_tx-IsDeleted now tx o reason c in
      IsConsistent-Frame o.id tx₀.db t.db (Frame-trans o.id tx₀.db tx.db t.db f gone.0) v
        (λ p e. cc (gone.1))
