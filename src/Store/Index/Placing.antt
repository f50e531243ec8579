-- ===== src/Store/Index/Placing.antt =====
-- The catalog when an object is stored anew, queued or not: `enqueue`, and the branches of
-- `afterDelivery`, of internal/store.
use xsync.Prelude.{
  ℕ, ◌+◌, ◌≡◌, ◌≢◌, refl, subst, ◌∙◌, ap, ◌||◌, some, leb, if◌then◌else◌, if_intro, arith,
}
use xsync.Prelude.Bytes.{Bytes, bytes_eq_iff, Lacks, codes}
use xsync.Bolt.{Bolt, get-put}
use xsync.Model.{State, ObjectVersion}
use xsync.Store.Keys.{Instant, nul, queue_key, queue_seg_key, queue_value}
use xsync.Store.Tx.{Tx, Db}
use xsync.Store.Queue.{put_queue_entries, enqueue}
use xsync.Store.Policy.{Policy}
use xsync.Store.Delivery.{
  ReleaseOptions, put_object, end_lease, park, requeue_leased, after_delivery,
}
use xsync.Store.Index.{IsIndexed, IsConsistent, Frame}
use xsync.Store.Index.Framing.{
  Frame-same, Frame-trans, Frame-put_queue, Frame-next_sequence, Frame-put_object,
  IsConsistent-Frame,
}
use xsync.Store.Index.Deletion.{Touches, delete_object_tx-IsConsistent}

module _ ⦃bolt : Bolt⦄ where
  open bolt use {Bucket, get, put, sequence, next_sequence, sequence-next}

  pub get-put_self : {V : Type 0} (b : Bucket V) (k : Bytes) (v : V) → get (put b k v) k ≡ some v
  get-put_self b k v =
      get-put b k k v ∙ ap (λ t. if t then some v else get b k) ((bytes_eq_iff k k).1 refl)

  -- An object that is stored by an operation is the one that a read then finds.
  pub own_put :
      (db : Db Bucket) (k : Bytes) (o : ObjectVersion)
      → IsIndexed (record db { objects = put db.objects k o }) k o
      → (p : ObjectVersion) → get (put db.objects k o) k ≡ some p
      → IsIndexed (record db { objects = put db.objects k o }) k p
  own_put db k o i p e =
      let same : o ≡ p = ground (arith, get-put_self db.objects k o) in
      subst (λ q. IsIndexed (record db { objects = put db.objects k o }) k q) same i

  -- The catalog `b`, which differs from a consistent one at this object only, stores it.
  pub put_object-IsConsistent :
      (a b : Db Bucket) (o : ObjectVersion)
      → IsConsistent a
      → Frame o.id a b
      → IsIndexed (record b { objects = put b.objects o.id o }) o.id o
      → IsConsistent (record b { objects = put b.objects o.id o })
  put_object-IsConsistent a b o v f i =
      IsConsistent-Frame o.id a (record b { objects = put b.objects o.id o })
        (Frame-trans o.id a b _ f (Frame-put_object b o.id o)) v (own_put b o.id o i)

  -- What is neither READY nor LEASED needs no index but a sequence number of 0.
  pub IsIndexed-idle :
      (db : Db Bucket) (o : ObjectVersion)
      → Lacks nul o.id
      → o.state ≢ State.ready
      → o.state ≢ State.leased
      → o.queue_seq ≡ 0
      → IsIndexed db o.id o
  IsIndexed-idle db o c r l z = record {
    own_id = refl;
    id_clean = c;
    queued = λ e. absurd (r e);
    unqueued = λ _. z;
    leased = λ e. absurd (l e);
  }

  -- `o` at the tail of its queue.
  abbrev pub tail : Tx Bucket → ObjectVersion → Instant → Tx Bucket
  tail tx o visible = let (tx', o') = enqueue tx o visible in put_object tx' o'

  pub tail-Touches :
      (tx : Tx Bucket) (o : ObjectVersion) (visible : Instant)
      → Lacks nul o.id
      → Touches o.id tx (tail tx o visible)
  unfolding enqueue put_object
  tail-Touches tx o visible c =
      let n : ℕ = sequence (next_sequence tx.queue) in
      let o' : ObjectVersion = record o { queue_seq = n; visible_at = visible } in
      let numbered : Tx Bucket = record tx {
        db = record tx.db { queue = next_sequence tx.queue };
      } in
      let t : Tx Bucket = put_queue_entries numbered o' in
      Frame-trans o.id tx.db numbered.db _ (Frame-next_sequence tx.db o.id) (
        Frame-trans o.id numbered.db t.db _
          (Frame-put_queue numbered.db o.id o.tenant o.path n (queue_value visible o.path) c)
          (Frame-put_object t.db o.id o'))

  pub tail-IsIndexed :
      (tx : Tx Bucket) (o : ObjectVersion) (visible : Instant)
      → Lacks nul o.id
      → o.state ≡ State.ready
      → (p : ObjectVersion) → get (tail tx o visible).objects o.id ≡ some p
      → IsIndexed (tail tx o visible).db o.id p
  unfolding enqueue put_object
  tail-IsIndexed tx o visible c r =
      let n : ℕ = sequence (next_sequence tx.queue) in
      let o' : ObjectVersion = record o { queue_seq = n; visible_at = visible } in
      let t : Tx Bucket =
        put_queue_entries (record tx { db = record tx.db { queue = next_sequence tx.queue } }) o' in
      own_put t.db o.id o' (record {
        own_id = refl;
        id_clean = c;
        queued = λ _. (
          get-put_self (next_sequence tx.queue) (queue_key o.tenant n o.id)
              (queue_value visible o.path),
          get-put_self tx.queue_seg (queue_seg_key o.tenant o.path n o.id)
              (queue_value visible o.path),
          rw (sequence-next tx.queue) (omega arith),
        );
        unqueued = λ ne. absurd (ne r);
        leased = λ e. cc (r);
      })

  -- A READY object that goes to the tail of the queue is indexed there.
  pub tail-IsConsistent :
      (tx₀ tx : Tx Bucket) (o : ObjectVersion) (visible : Instant)
      → IsConsistent tx₀.db
      → Touches o.id tx₀ tx
      → Lacks nul o.id
      → o.state ≡ State.ready
      → IsConsistent (tail tx o visible).db
  tail-IsConsistent tx₀ tx o visible v f c r =
      IsConsistent-Frame o.id tx₀.db (tail tx o visible).db
        (Frame-trans o.id tx₀.db tx.db _ f (tail-Touches tx o visible c)) v
        (tail-IsIndexed tx o visible c r)

  park-IsConsistent :
      (now : Instant) (tx₀ tx : Tx Bucket) (o : ObjectVersion)
      → IsConsistent tx₀.db
      → Touches o.id tx₀ tx
      → Lacks nul o.id
      → o.queue_seq ≡ 0
      → IsConsistent (park now tx o).db
  unfolding park
  park-IsConsistent now tx₀ tx o v f c z =
      put_object-IsConsistent tx₀.db _ _ v
        (Frame-trans o.id tx₀.db tx.db _ f (Frame-same o.id tx.db _ refl refl refl refl))
        (IsIndexed-idle _ _ c (λ e. cc) (λ e. cc) z)

  requeue_leased-IsConsistent :
      (now : Instant) (tx₀ tx : Tx Bucket) (o : ObjectVersion) (visible : Instant)
      → IsConsistent tx₀.db
      → Touches o.id tx₀ tx
      → Lacks nul o.id
      → IsConsistent (requeue_leased now tx o visible).db
  unfolding requeue_leased
  requeue_leased-IsConsistent now tx₀ tx o visible v f c =
      tail-IsConsistent tx₀ tx (record o { state = State.ready }) visible v f c refl

  -- Whatever `afterDelivery` decides for a leased object, the catalog stays consistent.
  pub after_delivery-IsConsistent :
      (policy : Bytes → Policy) (now : Instant) (tx₀ tx : Tx Bucket) (o : ObjectVersion)
      (opts : ReleaseOptions)
      → IsConsistent tx₀.db
      → Touches o.id tx₀ tx
      → Lacks nul o.id
      → o.queue_seq ≡ 0
      → IsConsistent (after_delivery policy now tx o opts).db
  unfolding after_delivery
  after_delivery-IsConsistent policy now tx₀ tx o opts v f c z =
      let o' : ObjectVersion = end_lease now o opts.reason in
      if_intro (λ (t : Tx Bucket). IsConsistent t.db) o'.retracted
        (λ _. delete_object_tx-IsConsistent now tx₀ tx o' (codes "retracted") v f c)
        (λ _.
          if_intro (λ (t : Tx Bucket). IsConsistent t.db)
            (opts.permanent || leb (policy o'.tenant).max_attempts o'.attempts)
            (λ _. park-IsConsistent now tx₀ tx o' v f c z)
            (λ _. requeue_leased-IsConsistent now tx₀ tx o' (now + opts.retry_after) v f c))
