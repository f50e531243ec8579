-- ===== src/Store/Lifecycle/Release.antt =====
-- `ReleaseWith` and `afterDelivery` of internal/store/delivery.go.
use xsync.Prelude.{
  suc, ◌+◌, ◌-◌, ◌≡◌, ◌≢◌, refl, ◌∙◌, ap, ◌&&◌, ◌||◌, Option, none, some, [], ◌==◌, leb, ltb,
  if◌then◌else◌, if_intro, if_both,
}
use xsync.Prelude.Bytes.{Bytes, bytes_eq, bytes_eq_iff, ne_of_bytes_eq, Lacks, codes}
use xsync.Prelude.Int.{pos, ◌-ℤ◌}
use xsync.Bolt.{Bolt, get-delete}
use xsync.Model.{State, ObjectVersion}
use xsync.Store.Error.{Error, err}
use xsync.Store.Ensures.{Ensures, Ensures-or_fail, Ensures-guard}
use xsync.Store.Keys.{Instant, nul, ns_key, time_id_key, parked_key, queue_key, queue_value}
use xsync.Store.Tx.{Tx}
use xsync.Store.Queue.{enqueue, put_queue_entries}
use xsync.Store.Policy.{Policy}
use xsync.Store.Delete.{
  is_some, or_empty, drop_name, drop_lease, drop_state_index, bury, drop_record, delete_object_tx,
}
use xsync.Store.Delivery.{
  ReleaseOptions, put_object, end_lease, park, requeue_leased, after_delivery, leased_by, give_back,
  release_tx,
}
use xsync.Store.Index.Deletion.{dequeued, delete_object_tx-IsDeleted}
use xsync.Store.Index.Placing.{get-put_self}

-- Where an object goes when its lease ends without a commit.
pub data Fate : Type 0 where
  gone parked queued : Fate

unfoldable pub fate : Policy → ObjectVersion → ReleaseOptions → Fate
fate pol o opts =
    if o.retracted
    then gone
    else if opts.permanent || leb pol.max_attempts o.attempts
    then parked
    else queued

module _ ⦃bolt : Bolt⦄ where
  open bolt use {Bucket, get, put, delete, sequence, next_sequence, sequence-next}

  -- The catalog shows the fate of the object `o`, which a READY one then meets at `visible`.
  unfoldable pub Shows : Tx Bucket → Tx Bucket → ObjectVersion → Instant → Fate → Type 0
  Shows tx tx' o visible gone = get tx'.objects o.id ≡ none
  Shows tx tx' o visible parked =
      (p : ObjectVersion) × (get tx'.objects o.id ≡ some p)
      × (p.state ≡ State.parked)
      × (p.lease_id ≡ [])
      × (p.last_error ≢ [])
      × (get tx'.parked (parked_key o.tenant p.parked_at o.id) ≡ some tt)
  Shows tx tx' o visible queued =
      (p : ObjectVersion) × (get tx'.objects o.id ≡ some p)
      × (p.state ≡ State.ready)
      × (p.lease_id ≡ [])
      × (p.visible_at ≡ visible)
      × (p.queue_seq ≡ suc (sequence tx.queue))
      × (get tx'.queue (queue_key o.tenant p.queue_seq o.id) ≡ some (queue_value visible o.path))

  park-Shows :
      (now : Instant) (tx : Tx Bucket) (o : ObjectVersion) (visible : Instant)
      → o.lease_id ≡ []
      → Shows tx (park now tx o) o visible parked
  unfolding Shows park put_object
  park-Shows now tx o visible z = (
    _,
    get-put_self tx.objects o.id _,
    refl,
    z,
    if_intro (λ (w : Bytes). w ≢ []) (bytes_eq o.last_error []) (λ _ e. cc (e))
        (λ e. ne_of_bytes_eq o.last_error [] e),
    get-put_self tx.parked (parked_key o.tenant now o.id) tt,
  )

  requeue_leased-Shows :
      (now : Instant) (tx : Tx Bucket) (o : ObjectVersion) (visible : Instant)
      → o.lease_id ≡ []
      → Shows tx (requeue_leased now tx o visible) o visible queued
  unfolding Shows requeue_leased put_object enqueue put_queue_entries
  requeue_leased-Shows now tx o visible z = (
    _,
    get-put_self tx.objects o.id _,
    refl,
    z,
    refl,
    sequence-next tx.queue,
    get-put_self (next_sequence tx.queue) _ _,
  )

  gone-Shows :
      (now : Instant) (tx : Tx Bucket) (o : ObjectVersion) (reason : Bytes) (visible : Instant)
      → Lacks nul o.id
      → Shows tx (delete_object_tx now tx o reason) o visible gone
  unfolding Shows
  gone-Shows now tx o reason visible c = (delete_object_tx-IsDeleted now tx o reason c).1

  -- `afterDelivery` brings the object, whose id has no NUL, to its fate: a retracted one leaves the
  -- catalog, one that failed for good or too often is parked with a reason, in the tenant's index
  -- of parked objects, and any other is READY again at the tail of the queue, visible after the
  -- delay. Its lease is gone.
  pub after_delivery-Shows :
      (policy : Bytes → Policy) (now : Instant) (tx : Tx Bucket) (o : ObjectVersion)
      (opts : ReleaseOptions)
      → Lacks nul o.id
      → Shows tx
          (after_delivery policy now tx o opts)
          o
          (now + opts.retry_after)
          (fate (policy o.tenant) o opts)
  unfolding after_delivery fate end_lease Shows
  after_delivery-Shows policy now tx o opts c =
      let o' : ObjectVersion = end_lease now o opts.reason in
      let P : Tx Bucket → Fate → Type 0 = (λ t f. Shows tx t o (now + opts.retry_after) f) in
      if_both P o.retracted
        (λ _. gone-Shows now tx o' (codes "retracted") (now + opts.retry_after) c)
        (λ _.
          if_both P (opts.permanent || leb (policy o.tenant).max_attempts o.attempts)
            (λ _. park-Shows now tx o' (now + opts.retry_after) refl)
            (λ _. requeue_leased-Shows now tx o' (now + opts.retry_after) refl))

  drop_record-claims : (tx : Tx Bucket) (o : ObjectVersion) → (drop_record tx o).claims ≡ tx.claims
  unfolding drop_record
  drop_record-claims tx o =
      if_intro (λ (t : Tx Bucket). t.claims ≡ tx.claims) (is_some (get tx.objects o.id)) (λ _. refl)
        (λ _. refl)

  drop_name-claims : (tx : Tx Bucket) (o : ObjectVersion) → (drop_name tx o).claims ≡ tx.claims
  unfolding drop_name
  drop_name-claims tx o =
      if_intro (λ (t : Tx Bucket). t.claims ≡ tx.claims)
        (bytes_eq (or_empty (get tx.namespace (ns_key o.tenant o.path))) o.id) (λ _. refl)
        (λ _. refl)

  drop_state_index-claims :
      (tx : Tx Bucket) (o : ObjectVersion) (s : State)
      → (drop_state_index tx o s).claims ≡ tx.claims
  unfolding drop_state_index
  drop_state_index-claims tx o State.parked = refl
  drop_state_index-claims tx o State.held = refl
  drop_state_index-claims tx o _ = refl

  end_record-claims :
      (now : Instant) (tx : Tx Bucket) (o : ObjectVersion) (reason : Bytes)
      → o.lease_id ≡ []
      → (drop_record (bury now (drop_state_index (drop_lease tx o) o o.state) o reason) o).claims
        ≡ tx.claims
  unfolding bury drop_lease
  end_record-claims now tx o reason z =
      let unleased : Tx Bucket = drop_lease tx o in
      drop_record-claims (bury now (drop_state_index unleased o o.state) o reason) o
      ∙ drop_state_index-claims unleased o o.state
      ∙ if_intro (λ (t : Tx Bucket). t.claims ≡ tx.claims) (bytes_eq o.lease_id []) (λ _. refl)
          (λ e. absurd (ne_of_bytes_eq o.lease_id [] e z))

  delete_object_tx-claims :
      (now : Instant) (tx : Tx Bucket) (o : ObjectVersion) (reason : Bytes)
      → o.lease_id ≡ []
      → (delete_object_tx now tx o reason).claims ≡ tx.claims
  unfolding delete_object_tx
  delete_object_tx-claims now tx o reason z =
      let named : Tx Bucket = drop_name tx o in
      let last : Tx Bucket × ObjectVersion → Tx Bucket = λ r.
        drop_record (bury now (drop_state_index (drop_lease r.0 r.1) r.1 r.1.state) r.1 reason)
          r.1 in
      if_intro (λ (r : Tx Bucket × ObjectVersion). (last r).claims ≡ tx.claims) (o.queue_seq == 0)
        (λ _. end_record-claims now named o reason z ∙ drop_name-claims tx o)
        (λ _.
          end_record-claims now (dequeued named o) (record o { queue_seq = 0 }) reason z
          ∙ drop_name-claims tx o)

  after_delivery-claims :
      (policy : Bytes → Policy) (now : Instant) (tx : Tx Bucket) (o : ObjectVersion)
      (opts : ReleaseOptions)
      → (after_delivery policy now tx o opts).claims ≡ tx.claims
  unfolding after_delivery end_lease park requeue_leased enqueue put_queue_entries put_object
  after_delivery-claims policy now tx o opts =
      let C : Tx Bucket → Type 0 = (λ t. t.claims ≡ tx.claims) in
      if_intro C o.retracted
        (λ _. delete_object_tx-claims now tx (end_lease now o opts.reason) (codes "retracted") refl)
        (λ _.
          if_intro C (opts.permanent || leb (policy o.tenant).max_attempts o.attempts) (λ _. refl)
            (λ _. refl))

  give_back-claims :
      (policy : Bytes → Policy) (now : Instant) (tx : Tx Bucket) (f : Option ObjectVersion)
      (opts : ReleaseOptions)
      → (give_back policy now tx f opts).claims ≡ tx.claims
  unfolding give_back
  give_back-claims policy now tx none opts = refl
  give_back-claims policy now tx (some o) opts =
      after_delivery-claims policy now
        (record tx {
          db = record tx.db { leases = delete tx.leases (time_id_key o.lease_until o.id) };
        })
        (if opts.uncounted && ltb 0 o.attempts then record o { attempts = o.attempts - 1 } else o)
        opts

  -- A lease that was released is spent: a second release finds no claim.
  pub release_tx-once :
      (policy policy' : Bytes → Policy) (now later : Instant) (tx : Tx Bucket)
      (tenant tenant' lease : Bytes) (opts opts' : ReleaseOptions)
      → Ensures
          (λ (tx' : Tx Bucket).
            release_tx policy' later tx' tenant' lease opts' ≡ err Error.not_found)
          (release_tx policy now tx tenant lease opts)
  unfolding release_tx
  release_tx-once policy policy' now later tx tenant tenant' lease opts opts' =
      let P : Tx Bucket → Type 0 =
        (λ tx'. release_tx policy' later tx' tenant' lease opts' ≡ err Error.not_found) in
      Ensures-or_fail P (get tx.claims lease) Error.not_found _ (λ claim e.
        Ensures-guard P (bytes_eq claim.tenant tenant) Error.lease_mismatch _ (λ own.
          let tx' : Tx Bucket = record tx {
            db = record tx.db { claims = delete tx.claims lease };
            delta = record tx.delta { claims = tx.delta.claims -ℤ pos 1 };
          } in
          let spent : get (give_back policy now tx' (leased_by tx' claim lease) opts).claims lease
              ≡ none =
            ap (λ b. get b lease) (give_back-claims policy now tx' (leased_by tx' claim lease) opts)
            ∙ get-delete tx.claims lease lease
            ∙ ap (λ b. if b then none else get tx.claims lease)
                ((bytes_eq_iff lease lease).1 refl) in
          rw spent refl))
