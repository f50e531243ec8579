-- ===== src/Store/Lifecycle/Claiming.antt =====
-- What the write transaction of `Claim` (internal/store/delivery.go) gives out.
use xsync.Prelude.{
  All, All-map, ℕ, ◌≡◌, ◌≢◌, refl, sym, ◌∙◌, ap, some, List, [], ◌∷◌, ◌==◌, if◌then◌else◌, if_intro,
  arith, inl, inr, Option-cases,
}
use xsync.Prelude.Bytes.{Bytes, bytes_eq_of_ne, Lacks}
use xsync.Bolt.{Bolt, get-put}
use xsync.Model.{State, ObjectVersion, Claim}
use xsync.Store.Ensures.{Ensures, Ensures-then}
use xsync.Store.Keys.{Instant, nul, time_id_key}
use xsync.Prelude.Int.{pos, ◌+ℤ◌}
use xsync.Store.Tx.{Tx, move}
use xsync.Store.Index.Deletion.{dequeued}
use xsync.Store.Queue.{dequeue}
use xsync.Store.Delivery.{put_object}
use xsync.Store.Claiming.{Candidate, still_ready, lease_object, claim_of, take_lease, claim_all}
use xsync.Store.Index.Placing.{get-put_self}
use xsync.Store.Index.Operations.{Consistent, found_clean}
use xsync.Store.Index.Claims.{still_ready_lem, take_lease-IsConsistent}

-- No two of the claims are for the same object.
pub Distinct : List Claim → Type 0
Distinct [] = Unit
Distinct (c ∷ cs) = All (λ d. d.object_id ≢ c.object_id) cs × Distinct cs

module _ ⦃bolt : Bolt⦄ where
  open bolt use {Bucket, get, put}

  -- The object under the id is READY.
  abbrev pub IsReady : Tx Bucket → Bytes → Type 0
  IsReady tx k = (o : ObjectVersion) × (get tx.objects k ≡ some o) × (o.state ≡ State.ready)

  -- The object is LEASED to the holder of the claim, as the claim says.
  abbrev pub IsHeldBy : Tx Bucket → Claim → Type 0
  IsHeldBy tx c =
      (o : ObjectVersion) × (get tx.objects c.object_id ≡ some o)
      × (o.state ≡ State.leased)
      × (o.lease_id ≡ c.lease_id)
      × (o.lease_until ≡ c.lease_until)
      × (o.attempts ≡ c.attempts)

  -- What a transaction from `tx` to `tx'` that grants `claims` promises.
  pub record IsGrant (tx tx' : Tx Bucket) (claims : List Claim) : Type 0 where
    -- an object that is not READY stays as it is
    pub untouched :
        (k : Bytes) (o : ObjectVersion)
        → get tx.objects k ≡ some o
        → o.state ≢ State.ready
        → get tx'.objects k ≡ some o
    pub was_ready : All (λ c. IsReady tx c.object_id) claims
    pub is_held : All (IsHeldBy tx') claims
    pub distinct : Distinct claims

  -- One lease: the object is LEASED, and no other record changes.
  record IsTaken (tx tx' : Tx Bucket) (id : Bytes) (c : Claim) : Type 0 where
    of_object : c.object_id ≡ id
    is_held : IsHeldBy tx' c
    others : (k : Bytes) → k ≢ id → get tx'.objects k ≡ get tx.objects k

  leased_out :
      (tenant client : Bytes) (ttl : ℕ) (now : Instant) (lease : Bytes) (tx₀ tx : Tx Bucket)
      (o : ObjectVersion)
      → tx.objects ≡ tx₀.objects
      → let held = lease_object now client ttl lease o in
        (t : Tx Bucket)
        → t.objects ≡ put tx.objects o.id held
        → IsTaken tx₀ t o.id (claim_of tenant client ttl held)
  unfolding lease_object claim_of
  leased_out tenant client ttl now lease tx₀ tx o same t e =
      let held : ObjectVersion = lease_object now client ttl lease o in
      record {
        of_object = refl;
        is_held = (
          held,
          ap (λ m. get m o.id) e ∙ get-put_self tx.objects o.id held,
          refl,
          refl,
          refl,
          refl,
        );
        others = λ k n.
            ap (λ m. get m k) e
            ∙ get-put tx.objects o.id k held
            ∙ ap (λ b. if b then some held else get tx.objects k)
                (bytes_eq_of_ne o.id k (λ p. n (sym p)))
            ∙ ap (λ m. get m k) same;
      }

  abbrev IsTakenFrom : Tx Bucket → Bytes → Tx Bucket × Claim → Type 0
  IsTakenFrom tx id r = IsTaken tx r.0 id r.1

  -- `take_lease` after its dequeue.
  abbrev leased_with :
      Bytes → Bytes → ℕ → Instant → Bytes → Tx Bucket × ObjectVersion → Tx Bucket × Claim
  leased_with tenant client ttl now lease r =
      let held = lease_object now client ttl lease r.1 in
      let t = put_object r.0 held in
      (
        record t {
          db = record t.db {
            claims = put t.claims lease (claim_of tenant client ttl held);
            leases = put t.leases (time_id_key held.lease_until held.id) lease;
          };
          delta = record (move t.delta held (some State.ready) (some State.leased)) {
            claims = t.delta.claims +ℤ pos 1;
          };
        },
        claim_of tenant client ttl held,
      )

  take_lease-IsTaken :
      (tenant client : Bytes) (ttl : ℕ) (now : Instant) (lease : Bytes) (tx : Tx Bucket)
      (o : ObjectVersion)
      → IsTakenFrom tx o.id (take_lease tenant client ttl now lease tx o)
  unfolding take_lease dequeue put_object
  take_lease-IsTaken tenant client ttl now lease tx o =
      if_intro
        (λ (r : Tx Bucket × ObjectVersion).
          IsTakenFrom tx o.id (leased_with tenant client ttl now lease r))
        (o.queue_seq == 0)
        (λ _.
          leased_out tenant client ttl now lease tx tx o refl
            (leased_with tenant client ttl now lease (tx, o)).0 refl)
        (λ _.
          leased_out tenant client ttl now lease tx (dequeued tx o) (record o { queue_seq = 0 })
            refl
            (leased_with tenant client ttl now lease (dequeued tx o, record o { queue_seq = 0 })).0
            refl)

  ready_at :
      (tx : Tx Bucket) (o : ObjectVersion) (k : Bytes) (p : ObjectVersion)
      → get tx.objects o.id ≡ some o
      → o.state ≡ State.ready
      → k ≡ o.id
      → get tx.objects k ≡ some p
      → p.state ≡ State.ready
  ready_at tx o k p f r q e = ground arith

  ready_is_not_leased :
      (tx : Tx Bucket) (k : Bytes)
      → IsReady tx k
      → (o : ObjectVersion) → get tx.objects k ≡ some o
      → o.state ≢ State.leased
  ready_is_not_leased tx k (p, e, r) o f l = ground arith

  -- What was granted after an object was taken, and the claim on that object.
  IsGrant-cons :
      (tx tx₁ tx₂ : Tx Bucket) (o : ObjectVersion) (c : Claim) (cs : List Claim)
      → get tx.objects o.id ≡ some o
      → o.state ≡ State.ready
      → IsTaken tx tx₁ o.id c
      → IsGrant tx₁ tx₂ cs
      → IsGrant tx tx₂ (c ∷ cs)
  unfolding Distinct
  IsGrant-cons tx tx₁ tx₂ o c cs f r t g =
      let h = t.is_held in
      let other : (k : Bytes) (p : ObjectVersion)
          → get tx.objects k ≡ some p
          → p.state ≢ State.ready
          → k ≢ o.id =
        λ k p e n q. n (ready_at tx o k p f r q e) in
      let apart : (k : Bytes) → IsReady tx₁ k → k ≢ c.object_id =
        λ k q e. ready_is_not_leased tx₁ k q h.0 (ap (get tx₁.objects) e ∙ h.1) h.2 in
      record {
        untouched = λ k p e n. g.untouched k p (t.others k (other k p e n) ∙ e) n;
        was_ready = (
          (o, ap (get tx.objects) t.of_object ∙ f, r),
          All-map
              (λ d q. (
                q.0,
                sym (t.others d.object_id (λ e. apart d.object_id q (e ∙ sym t.of_object))) ∙ q.1,
                q.2,
              ))
              cs g.was_ready,
        );
        is_held = (
          (h.0, g.untouched c.object_id h.0 h.1 (λ q. cc (q, h.2)), h.2, h.3, h.4, h.5),
          g.is_held,
        );
        distinct = (All-map (λ d q. apart d.object_id q) cs g.was_ready, g.distinct);
      }

  -- The write transaction of `Claim` on a consistent catalog, for any candidates, also repeated and
  -- stale ones, if it does not fail: each object it
  -- grants was READY and is LEASED to the claim, no object is granted twice, and no record of an
  -- object that was not READY changes.
  pub claim_all-IsGrant :
      (tenant client : Bytes) (ttl : ℕ) (now : Instant) (cs : List Candidate) (leases : List Bytes)
      (tx : Tx Bucket)
      → Consistent tx
      → Ensures
          (λ (r : Tx Bucket × List Claim). IsGrant tx r.0 r.1)
          (claim_all tenant client ttl now cs leases tx)
  unfolding claim_all Distinct
  claim_all-IsGrant tenant client ttl now [] leases tx v = record {
    untouched = λ k o e n. e;
    was_ready = tt;
    is_held = tt;
    distinct = tt;
  }
  claim_all-IsGrant tenant client ttl now (c ∷ cs) [] tx v =
      elim (Option-cases (still_ready tx c)) [
        | inl e ↦ rw (e, claim_all) (claim_all-IsGrant tenant client ttl now cs [] tx v)
        | inr (o, e) ↦ rw (e, claim_all) tt
      ]
  claim_all-IsGrant tenant client ttl now (c ∷ cs) (l ∷ ls) tx v =
      elim (Option-cases (still_ready tx c)) [
        | inl e ↦ rw (e, claim_all) (claim_all-IsGrant tenant client ttl now cs (l ∷ ls) tx v)
        | inr (o, e) ↦
            let at = still_ready_lem tx c o e in
            let clean : Lacks nul o.id = found_clean tx c.id o v at.0 in
            let own : o.id ≡ c.id = (v.at_key c.id o at.0).own_id in
            let taken : Tx Bucket × Claim = take_lease tenant client ttl now l tx o in
            rw (e, claim_all)
              (Ensures-then (λ r. IsGrant taken.0 r.0 r.1) (λ r. IsGrant tx r.0 r.1)
                (claim_all tenant client ttl now cs ls taken.0) _
                (claim_all-IsGrant tenant client ttl now cs ls taken.0
                  (take_lease-IsConsistent tenant client ttl now l tx o v clean))
                (λ r g.
                  IsGrant-cons tx taken.0 r.0 o taken.1 r.1 (ap (get tx.objects) own ∙ at.0) at.1
                    (take_lease-IsTaken tenant client ttl now l tx o) g))
      ]
