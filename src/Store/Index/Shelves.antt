-- ===== src/Store/Index/Shelves.antt =====
-- The indexes of HELD and of PARKED objects under `rebuildIndexes` of internal/store/schema.go.
use xsync.Prelude.{
  ◌≡◌, ◌≢◌, ◌⊎◌, refl, sym, subst, ◌∙◌, ap, none, some, List, [], ◌∷◌, ◌==◌, if_intro, inl, inr,
  arith, Bool-cases,
}
use xsync.Prelude.Bytes.{Bytes, bytes_eq, bytes_eq_iff, ne_of_bytes_eq, codes}
use xsync.Bolt.{Bolt, get-put}
use xsync.Model.{State, ObjectVersion}
use xsync.Store.Keys.{Instant, ns_key, time_id_key, parked_key}
use xsync.Store.Tx.{Tx, Db}
use xsync.Store.Queue.{enqueue, put_queue_entries}
use xsync.Store.Delivery.{put_object}
use xsync.Store.Delete.{
  or_empty, is_some, drop_name, drop_claim, drop_lease, drop_state_index, bury, drop_record,
  delete_object_tx,
}
use xsync.Store.Rebuild.{index_leased, index_ready, index_object}
use xsync.Store.Index.Sorting.{Listed}
use xsync.Store.Index.Deletion.{Touches, dequeued}
use xsync.Store.Index.Placing.{get-put_self}

module _ ⦃bolt : Bolt⦄ where
  open bolt use {Bucket, get, put}

  -- A HELD object stands in the index by its creation, a PARKED one in the index by when it was
  -- parked.
  abbrev pub IsShelved : Db Bucket → Bytes → ObjectVersion → Type 0
  IsShelved db k o =
      (o.state ≡ State.held → get db.held (time_id_key o.created_at k) ≡ some tt)
      × (o.state ≡ State.parked → get db.parked (parked_key o.tenant o.parked_at k) ≡ some tt)

  -- What is neither needs no entry.
  active-IsShelved :
      (db : Db Bucket) (k : Bytes) (o : ObjectVersion)
      → o.state ≢ State.held
      → o.state ≢ State.parked
      → IsShelved db k o
  active-IsShelved db k o h p = ((λ e. absurd (h e)), (λ e. absurd (p e)))

  -- The two buckets are the same.
  abbrev pub SameShelves : Tx Bucket → Tx Bucket → Type 0
  SameShelves a b = (b.held ≡ a.held) × (b.parked ≡ a.parked)

  SameShelves-trans : (a b c : Tx Bucket) → SameShelves a b → SameShelves b c → SameShelves a c
  SameShelves-trans a b c s t = (t.0 ∙ s.0, t.1 ∙ s.1)

  drop_name-SameShelves : (tx : Tx Bucket) (o : ObjectVersion) → SameShelves tx (drop_name tx o)
  unfolding drop_name
  drop_name-SameShelves tx o =
      if_intro (SameShelves tx)
        (bytes_eq (or_empty (get tx.namespace (ns_key o.tenant o.path))) o.id) (λ _. (refl, refl))
        (λ _. (refl, refl))

  drop_claim-SameShelves : (tx : Tx Bucket) (l : Bytes) → SameShelves tx (drop_claim tx l)
  unfolding drop_claim
  drop_claim-SameShelves tx l =
      if_intro (SameShelves tx) (is_some (get tx.claims l)) (λ _. (refl, refl)) (λ _. (refl, refl))

  drop_lease-SameShelves : (tx : Tx Bucket) (o : ObjectVersion) → SameShelves tx (drop_lease tx o)
  unfolding drop_lease
  drop_lease-SameShelves tx o =
      if_intro (SameShelves tx) (bytes_eq o.lease_id []) (λ _. (refl, refl))
        (λ _. drop_claim-SameShelves tx o.lease_id)

  drop_record-SameShelves : (tx : Tx Bucket) (o : ObjectVersion) → SameShelves tx (drop_record tx o)
  unfolding drop_record
  drop_record-SameShelves tx o =
      if_intro (SameShelves tx) (is_some (get tx.objects o.id)) (λ _. (refl, refl))
        (λ _. (refl, refl))

  drop_state_index-SameShelves :
      (tx : Tx Bucket) (o : ObjectVersion) (s : State)
      → s ≡ State.delete_pending
      → SameShelves tx (drop_state_index tx o s)
  unfolding drop_state_index
  drop_state_index-SameShelves tx o s e =
      subst (λ t. SameShelves tx (drop_state_index tx o t)) (sym e) (refl, refl)

  finish-SameShelves :
      (now : Instant) (tx : Tx Bucket) (o : ObjectVersion) (reason : Bytes)
      → o.state ≡ State.delete_pending
      → SameShelves tx
          (drop_record (bury now (drop_state_index (drop_lease tx o) o o.state) o reason) o)
  unfolding bury
  finish-SameShelves now tx o reason e =
      let t₁ : Tx Bucket = drop_lease tx o in
      let t₂ : Tx Bucket = drop_state_index t₁ o o.state in
      let t₃ : Tx Bucket = bury now t₂ o reason in
      let t₄ : Tx Bucket = drop_record t₃ o in
      SameShelves-trans tx t₁ t₄ (drop_lease-SameShelves tx o) (
        SameShelves-trans t₁ t₂ t₄ (drop_state_index-SameShelves t₁ o o.state e)
          (SameShelves-trans t₂ t₃ t₄ (refl, refl) (drop_record-SameShelves t₃ o)))

  delete_object_tx-SameShelves :
      (now : Instant) (tx : Tx Bucket) (o : ObjectVersion) (reason : Bytes)
      → o.state ≡ State.delete_pending
      → SameShelves tx (delete_object_tx now tx o reason)
  unfolding delete_object_tx
  delete_object_tx-SameShelves now tx o reason e =
      let named : Tx Bucket = drop_name tx o in
      SameShelves-trans tx named (delete_object_tx now tx o reason) (drop_name-SameShelves tx o) (
        if_intro
          (λ (r : Tx Bucket × ObjectVersion). SameShelves named (
            drop_record (bury now (drop_state_index (drop_lease r.0 r.1) r.1 r.1.state) r.1 reason)
              r.1))
          (o.queue_seq == 0) (λ _. finish-SameShelves now named o reason e)
          (λ _. finish-SameShelves now (dequeued named o) (record o { queue_seq = 0 }) reason e))

  -- A step on the object `o`: no entry goes, its own is there, and what is then under its id was
  -- there before or needs no entry that is missing.
  pub record IsShelfStep (tx : Tx Bucket) (o : ObjectVersion) (t : Tx Bucket) : Type 0 where
    pub grows : (k : Bytes) (p : ObjectVersion) → IsShelved tx.db k p → IsShelved t.db k p
    pub entry : IsShelved t.db o.id o
    pub found :
        (p : ObjectVersion)
        → get t.objects o.id ≡ some p
        → (get tx.objects o.id ≡ some p) ⊎ IsShelved t.db o.id p

  SameShelves-grows :
      (tx t : Tx Bucket)
      → SameShelves tx t
      → (k : Bytes) (p : ObjectVersion) → IsShelved tx.db k p
      → IsShelved t.db k p
  SameShelves-grows tx t s k p h = (
    λ e. ap (λ b. get b (time_id_key p.created_at k)) s.0 ∙ h.0 e,
    λ e. ap (λ b. get b (parked_key p.tenant p.parked_at k)) s.1 ∙ h.1 e,
  )

  -- An object that is in neither state is stored again in the same state.
  stored-IsShelfStep :
      (tx t : Tx Bucket) (o o' : ObjectVersion)
      → SameShelves tx t
      → o.state ≢ State.held
      → o.state ≢ State.parked
      → o'.state ≡ o.state
      → get t.objects o.id ≡ some o'
      → IsShelfStep tx o t
  stored-IsShelfStep tx t o o' s h p e g = record {
    grows = SameShelves-grows tx t s;
    entry = active-IsShelved t.db o.id o h p;
    found = λ q f.
        let same : o' ≡ q = ground (arith, g, f) in
        inr (
          subst (λ r. IsShelved t.db o.id r) same
            (active-IsShelved t.db o.id o' (λ x. h (sym e ∙ x)) (λ x. p (sym e ∙ x))));
  }

  kept-IsShelfStep :
      (tx : Tx Bucket) (o : ObjectVersion)
      → o.state ≢ State.held
      → o.state ≢ State.parked
      → IsShelfStep tx o tx
  kept-IsShelfStep tx o h p = record {
    grows = λ k q i. i;
    entry = active-IsShelved tx.db o.id o h p;
    found = λ q f. inl f;
  }

  -- An entry stays when another is put.
  get-put_tt :
      (b : Bucket (Unit {0})) (x y : Bytes) → get b y ≡ some tt → get (put b x tt) y ≡ some tt
  get-put_tt b x y h =
      get-put b x y tt ∙ if_intro (λ r. r ≡ some tt) (bytes_eq x y) (λ _. refl) (λ _. h)

  pub index_object-IsShelfStep :
      (now : Instant) (tx : Tx Bucket) (o : ObjectVersion) (s : State)
      → o.state ≡ s
      → (s ≡ State.delete_pending
          → get (delete_object_tx now tx o (codes "committed")).objects o.id ≡ none)
      → IsShelfStep tx o (index_object now tx o s)
  unfolding index_object index_ready index_leased enqueue put_queue_entries put_object
  index_object-IsShelfStep now tx o State.ready e gone =
      stored-IsShelfStep tx _ o _ (refl, refl) (λ x. cc (x, e)) (λ x. cc (x, e)) refl
        (get-put_self tx.objects o.id _)
  index_object-IsShelfStep now tx o State.leased e gone =
      stored-IsShelfStep tx _ o _ (refl, refl) (λ x. cc (x, e)) (λ x. cc (x, e)) refl
        (get-put_self tx.objects o.id _)
  index_object-IsShelfStep now tx o State.delete_pending e gone = record {
    grows =
        SameShelves-grows tx (delete_object_tx now tx o (codes "committed"))
          (delete_object_tx-SameShelves now tx o (codes "committed") e);
    entry =
        active-IsShelved (delete_object_tx now tx o (codes "committed")).db o.id o (λ x. cc (x, e))
          (λ x. cc (x, e));
    found = λ p f. absurd (cc (f, gone refl));
  }
  index_object-IsShelfStep now tx o State.held e gone = record {
    grows = λ k p h. ((λ x. get-put_tt tx.held _ _ (h.0 x)), h.1);
    entry = ((λ _. get-put_self tx.held (time_id_key o.created_at o.id) tt), (λ x. cc (x, e)));
    found = λ p f. inl f;
  }
  index_object-IsShelfStep now tx o State.parked e gone = record {
    grows = λ k p h. (h.0, (λ x. get-put_tt tx.parked _ _ (h.1 x)));
    entry =
        ((λ x. cc (x, e)), (λ _. get-put_self tx.parked (parked_key o.tenant o.parked_at o.id) tt));
    found = λ p f. inl f;
  }
  index_object-IsShelfStep now tx o State.uploading e gone =
      kept-IsShelfStep tx o (λ x. cc (x, e)) (λ x. cc (x, e))
  index_object-IsShelfStep now tx o State.finalizing e gone =
      kept-IsShelfStep tx o (λ x. cc (x, e)) (λ x. cc (x, e))
  index_object-IsShelfStep now tx o State.interrupted e gone =
      kept-IsShelfStep tx o (λ x. cc (x, e)) (λ x. cc (x, e))
  index_object-IsShelfStep now tx o State.failed e gone =
      kept-IsShelfStep tx o (λ x. cc (x, e)) (λ x. cc (x, e))

  -- Each object is in the index of its state, or it is still to come.
  unfoldable pub Shelving : Tx Bucket → List ObjectVersion → Type 0
  Shelving tx os =
      (k : Bytes) (p : ObjectVersion)
      → get tx.objects k ≡ some p
      → IsShelved tx.db k p ⊎ ((p.id ≡ k) × Listed os p)

  pub step-Shelving :
      (tx t : Tx Bucket) (o : ObjectVersion) (os : List ObjectVersion)
      → Shelving tx (o ∷ os)
      → Touches o.id tx t
      → IsShelfStep tx o t
      → Shelving t os
  unfolding Shelving Listed
  step-Shelving tx t o os h f s k p e = elim (Bool-cases (bytes_eq k o.id)) [
    | inl same ↦
        let at : k ≡ o.id = (bytes_eq_iff k o.id).0 same in
        elim (s.found p (ap (get t.objects) (sym at) ∙ e)) [
          | inl before ↦ came k p (h k p (ap (get tx.objects) at ∙ before))
          | inr i ↦ inl (subst (λ j. IsShelved t.db j p) (sym at) i)
        ]
    | inr other ↦
        let ne : k ≢ o.id = ne_of_bytes_eq k o.id other in
        came k p (h k p (sym (f.objects k ne) ∙ e))
  ]
    where
      came :
          (k : Bytes) (p : ObjectVersion)
          → IsShelved tx.db k p ⊎ ((p.id ≡ k) × ((p ≡ o) ⊎ Listed os p))
          → IsShelved t.db k p ⊎ ((p.id ≡ k) × Listed os p)
      came k p (inl i) = inl (s.grows k p i)
      came k p (inr (own, inl q)) =
          inl (
            subst (λ j. IsShelved t.db j p) own
              (subst (λ r. IsShelved t.db r.id r) (sym q) s.entry))
      came k p (inr (own, inr more)) = inr (own, more)

  -- A HELD object has its entry, and so has a PARKED one.
  pub record AreShelved (db : Db Bucket) : Type 0 where
    pub shelf : (k : Bytes) (o : ObjectVersion) → get db.objects k ≡ some o → IsShelved db k o
