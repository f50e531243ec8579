-- ===== src/Store/Index/Moving.antt =====
-- The catalog under `moveObject` of internal/store/namespace.go.
use xsync.Prelude.{
  ℕ, ◌<◌, ◌≡◌, ◌≢◌, refl, sym, subst, not, ◌&&◌, some, ◌==◌, if◌then◌else◌, if_intro, arith,
}
use xsync.Prelude.Bytes.{Bytes, Lacks}
use xsync.Bolt.{Bolt}
use xsync.Model.{State, ObjectVersion}
use xsync.Store.Keys.{Instant, nul, time_id_key, queue_key, queue_seg_key, queue_value}
use xsync.Store.Tx.{Tx}
use xsync.Store.Policy.{Policy, held}
use xsync.Store.Queue.{dequeue, put_queue_entries}
use xsync.Store.Delivery.{state_eq, put_object}
use xsync.Store.Publish.{place}
use xsync.Store.Rename.{keep_place, move_object}
use xsync.Store.Index.{IsConsistent}
use xsync.Store.Index.Framing.{Frame-same, Frame-refl, Frame-trans, Frame-put_queue}
use xsync.Store.Index.Deletion.{Touches, dequeued, dequeued-Touches}
use xsync.Store.Index.Placing.{get-put_self, put_object-IsConsistent}
use xsync.Store.Index.Operations.{Consistent, found_clean}
use xsync.Store.Index.Paths.{place-IsConsistent}

module _ ⦃bolt : Bolt⦄ where
  open bolt use {Bucket, get, put, delete}

  -- What the consistency of an earlier catalog says of an object that the transaction has read.
  pub record IsRead (tx : Tx Bucket) (o : ObjectVersion) : Type 0 where
    pub id_clean : Lacks nul o.id
    pub queued : o.state ≡ State.ready → 0 < o.queue_seq
    pub unqueued : o.state ≢ State.ready → o.queue_seq ≡ 0
    pub leased :
        o.state ≡ State.leased → get tx.leases (time_id_key o.lease_until o.id) ≡ some o.lease_id

  pub IsRead-found :
      (tx : Tx Bucket) (k : Bytes) (o : ObjectVersion)
      → Consistent tx
      → get tx.objects k ≡ some o
      → IsRead tx o
  IsRead-found tx k o v e =
      let i = v.at_key k o e in
      record {
        id_clean = found_clean tx k o v e;
        queued = λ r. (i.queued r).2;
        unqueued = i.unqueued;
        leased = λ l.
            subst (λ j. get tx.leases (time_id_key o.lease_until j) ≡ some o.lease_id)
              (sym i.own_id) (i.leased l);
      }

  -- Back at its old place in the queue, if it had one.
  keep_place-IsConsistent :
      (tx₀ tx : Tx Bucket) (o : ObjectVersion) (path : Bytes) (now : Instant) (q : ℕ)
      → IsConsistent tx₀.db
      → Touches o.id tx₀ tx
      → tx.leases ≡ tx₀.leases
      → IsRead tx₀ o
      → q ≡ 0
      → Consistent (keep_place tx o (record o { queue_seq = q; path = path; updated_at = now }))
  unfolding keep_place put_object put_queue_entries
  keep_place-IsConsistent tx₀ tx o path now q v f same r z =
      if_intro (λ (t : Tx Bucket). Consistent t) (o.queue_seq == 0)
        (λ e.
          let idle : o.queue_seq ≡ 0 = ground arith in
          put_object-IsConsistent tx₀.db tx.db
            (record o { queue_seq = q; path = path; updated_at = now }) v f
            (record {
              own_id = refl;
              id_clean = r.id_clean;
              queued = λ s. let pos = r.queued s in absurd (omega arith);
              unqueued = λ _. z;
              leased = λ s. rw same (r.leased s);
            }))
        (λ e.
          let o' : ObjectVersion = record o { path = path; updated_at = now } in
          put_object-IsConsistent tx₀.db (put_queue_entries tx o').db o' v
            (Frame-trans o.id tx₀.db tx.db _ f (
              Frame-put_queue tx.db o.id o.tenant path o.queue_seq (queue_value o.visible_at path)
                r.id_clean))
            (record {
              own_id = refl;
              id_clean = r.id_clean;
              queued = λ s. (
                get-put_self tx.queue (queue_key o.tenant o.queue_seq o.id)
                    (queue_value o.visible_at path),
                get-put_self tx.queue_seg (queue_seg_key o.tenant path o.queue_seq o.id)
                    (queue_value o.visible_at path),
                r.queued s,
              );
              unqueued = r.unqueued;
              leased = λ s. rw same (r.leased s);
            }))

  -- The part of `moveObject` after the dequeue.
  Relocate : Policy → Instant → ObjectVersion → Bytes → Tx Bucket × ObjectVersion → Type 0
  Relocate pol now o new_path r =
      let moved : ObjectVersion = record r.1 { path = new_path; updated_at = now } in
      Consistent (
        if state_eq o.state State.held && not (held pol.hold_patterns new_path)
        then place pol now
            (record r.0 {
              db = record r.0.db { held = delete r.0.held (time_id_key moved.created_at moved.id) };
            })
            moved (some State.held)
        else if state_eq o.state State.ready && held pol.hold_patterns new_path
        then place pol now r.0 moved (some State.ready)
        else keep_place r.0 o moved)

  relocated :
      (pol : Policy) (now : Instant) (tx₀ tx : Tx Bucket) (o : ObjectVersion) (new_path : Bytes)
      (q : ℕ)
      → IsConsistent tx₀.db
      → Touches o.id tx₀ tx
      → tx.leases ≡ tx₀.leases
      → IsRead tx₀ o
      → q ≡ 0
      → Relocate pol now o new_path (tx, record o { queue_seq = q })
  unfolding Relocate
  relocated pol now tx₀ tx o new_path q v f same r z =
      let C : Tx Bucket → Type 0 = (λ t. Consistent t) in
      if_intro C (state_eq o.state State.held && not (held pol.hold_patterns new_path))
        (λ _.
          place-IsConsistent pol now tx₀ _ _ (some State.held) v
            (Frame-trans o.id tx₀.db tx.db _ f (Frame-same o.id tx.db _ refl refl refl refl))
            r.id_clean z)
        (λ _.
          if_intro C (state_eq o.state State.ready && held pol.hold_patterns new_path)
            (λ _. place-IsConsistent pol now tx₀ tx _ (some State.ready) v f r.id_clean z)
            (λ _. keep_place-IsConsistent tx₀ tx o new_path now q v f same r z))

  pub move_object-IsConsistent :
      (pol : Policy) (now : Instant) (tx : Tx Bucket) (o : ObjectVersion) (new_path : Bytes)
      → Consistent tx
      → IsRead tx o
      → Consistent (move_object pol now tx o new_path)
  unfolding move_object dequeue Relocate
  move_object-IsConsistent pol now tx o new_path v r =
      if_intro (Relocate pol now o new_path) (o.queue_seq == 0)
        (λ e.
          relocated pol now tx tx o new_path o.queue_seq v (Frame-refl o.id tx.db) refl r
            (ground arith))
        (λ _.
          relocated pol now tx (dequeued tx o) o new_path 0 v (dequeued-Touches tx o r.id_clean)
            refl r refl)
