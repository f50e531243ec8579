-- ===== src/Store/Index/Claims.antt =====
-- The catalog under the write transaction of `Claim` (internal/store/delivery.go).
use xsync.Prelude.{
  ℕ, ◌+◌, ◌≡◌, refl, some, List, [], ◌∷◌, ◌==◌, if_intro, arith, inl, inr, Option-cases,
}
use xsync.Prelude.Bytes.{Bytes, Lacks}
use xsync.Bolt.{Bolt}
use xsync.Model.{State, ObjectVersion, Claim}
use xsync.Store.Ensures.{Ensures, Ensures-then}
use xsync.Store.Keys.{Instant, nul, time_id_key}
use xsync.Store.Tx.{Tx, Db}
use xsync.Store.Queue.{dequeue}
use xsync.Store.Delivery.{state_eq, put_object}
use xsync.Store.Claiming.{Candidate, still_ready, lease_object, claim_of, take_lease, claim_all}
use xsync.Store.Index.{IsConsistent}
use xsync.Store.Index.Framing.{Frame-same, Frame-refl, Frame-trans, Frame-put_lease}
use xsync.Store.Index.Deletion.{Touches, dequeued, dequeued-Touches}
use xsync.Store.Index.Placing.{get-put_self, put_object-IsConsistent}
use xsync.Store.Index.Operations.{Consistent, found_clean}

module _ ⦃bolt : Bolt⦄ where
  open bolt use {Bucket, get, put}

  pub still_ready_lem :
      (tx : Tx Bucket) (c : Candidate) (o : ObjectVersion)
      → still_ready tx c ≡ some o
      → (get tx.objects c.id ≡ some o) × (o.state ≡ State.ready) × (o.queue_seq ≡ c.seq)
  unfolding still_ready state_eq
  still_ready_lem tx c o h = ground arith

  -- The state after `dequeue` with the lease written: `tx₀` is where the transaction began.
  leased_out-IsConsistent :
      (client : Bytes) (ttl : ℕ) (now : Instant) (lease : Bytes) (tx₀ tx : Tx Bucket)
      (o : ObjectVersion) (claim : Claim)
      → Consistent tx₀
      → Touches o.id tx₀ tx
      → Lacks nul o.id
      → o.queue_seq ≡ 0
      → let held = lease_object now client ttl lease o in
        let t = put_object tx held in
        IsConsistent (record t.db {
          claims = put t.claims lease claim;
          leases = put t.leases (time_id_key held.lease_until held.id) lease;
        })
  unfolding lease_object put_object
  leased_out-IsConsistent client ttl now lease tx₀ tx o claim v f c z =
      let entered : Db Bucket = record tx.db {
        leases = put tx.leases (time_id_key (now + ttl) o.id) lease;
      } in
      put_object-IsConsistent tx₀.db (record entered { claims = put tx.claims lease claim })
        (lease_object now client ttl lease o) v
        (Frame-trans o.id tx₀.db tx.db _ f (
          Frame-trans o.id tx.db entered _ (Frame-put_lease tx.db o.id (now + ttl) lease)
            (Frame-same o.id entered _ refl refl refl refl)))
        (record {
          own_id = refl;
          id_clean = c;
          queued = λ r. cc (r);
          unqueued = λ _. z;
          leased = λ _. get-put_self tx.leases (time_id_key (now + ttl) o.id) lease;
        })

  pub take_lease-IsConsistent :
      (tenant client : Bytes) (ttl : ℕ) (now : Instant) (lease : Bytes) (tx : Tx Bucket)
      (o : ObjectVersion)
      → Consistent tx
      → Lacks nul o.id
      → Consistent (take_lease tenant client ttl now lease tx o).0
  unfolding take_lease dequeue
  take_lease-IsConsistent tenant client ttl now lease tx o v c =
      if_intro
        (λ (r : Tx Bucket × ObjectVersion).
          let held = lease_object now client ttl lease r.1 in
          let t = put_object r.0 held in
          IsConsistent (record t.db {
            claims = put t.claims lease (claim_of tenant client ttl held);
            leases = put t.leases (time_id_key held.lease_until held.id) lease;
          }))
        (o.queue_seq == 0)
        (λ z.
          leased_out-IsConsistent client ttl now lease tx tx o _ v (Frame-refl o.id tx.db) c
            (ground arith))
        (λ _.
          leased_out-IsConsistent client ttl now lease tx (dequeued tx o)
            (record o { queue_seq = 0 }) _ v (dequeued-Touches tx o c) c refl)

  -- Leasing any candidates, also stale ones, keeps the catalog consistent.
  pub claim_all-IsConsistent :
      (tenant client : Bytes) (ttl : ℕ) (now : Instant) (cs : List Candidate) (leases : List Bytes)
      (tx : Tx Bucket)
      → Consistent tx
      → Ensures
          (λ (r : Tx Bucket × List Claim). Consistent r.0)
          (claim_all tenant client ttl now cs leases tx)
  unfolding claim_all
  claim_all-IsConsistent tenant client ttl now [] leases tx v = v
  claim_all-IsConsistent tenant client ttl now (c ∷ cs) [] tx v =
      elim (Option-cases (still_ready tx c)) [
        | inl e ↦ rw (e, claim_all) (claim_all-IsConsistent tenant client ttl now cs [] tx v)
        | inr (o, e) ↦ rw (e, claim_all) tt
      ]
  claim_all-IsConsistent tenant client ttl now (c ∷ cs) (l ∷ ls) tx v =
      elim (Option-cases (still_ready tx c)) [
        | inl e ↦ rw (e, claim_all) (claim_all-IsConsistent tenant client ttl now cs (l ∷ ls) tx v)
        | inr (o, e) ↦
            let clean : Lacks nul o.id = found_clean tx c.id o v (still_ready_lem tx c o e).0 in
            let taken : Tx Bucket × Claim = take_lease tenant client ttl now l tx o in
            let P : Tx Bucket × List Claim → Type 0 = (λ r. Consistent r.0) in
            rw (e, claim_all)
              (Ensures-then P P (claim_all tenant client ttl now cs ls taken.0) _
                (claim_all-IsConsistent tenant client ttl now cs ls taken.0
                  (take_lease-IsConsistent tenant client ttl now l tx o v clean))
                (λ r h. h))
      ]
