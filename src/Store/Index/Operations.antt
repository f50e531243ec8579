-- ===== src/Store/Index/Operations.antt =====
-- The catalog under `ReleaseWith` and `Renew` of internal/store/delivery.go.
use xsync.Prelude.{
  ℕ, ◌+◌, ◌-◌, ◌<◌, ◌≡◌, refl, sym, subst, ◌∙◌, ap, true, ◌&&◌, some, ltb, if_intro, arith, inl,
  inr, Option-cases,
}
use xsync.Prelude.Bytes.{Bytes, bytes_eq, bytes_eq_iff, Lacks}
use xsync.Bolt.{Bolt}
use xsync.Model.{State, ObjectVersion, Claim}
use xsync.Store.Error.{Error}
use xsync.Store.Ensures.{Ensures, Ensures-or_fail, Ensures-guard}
use xsync.Store.Keys.{Instant, nul, time_id_key}
use xsync.Store.Tx.{Tx, Db}
use xsync.Store.Policy.{Policy}
use xsync.Store.Delivery.{
  ReleaseOptions, state_eq, put_object, after_delivery, leased_by, give_back, release_tx,
}
use xsync.Store.Lease.{extension, is_live, renew_tx}
use xsync.Store.Index.{IsConsistent}
use xsync.Store.Index.Framing.{Frame-same, Frame-trans, Frame-put_lease, Frame-delete_lease}
use xsync.Store.Index.Placing.{get-put_self, put_object-IsConsistent, after_delivery-IsConsistent}

module _ ⦃bolt : Bolt⦄ where
  open bolt use {Bucket, get, put, delete}

  abbrev pub Consistent : Tx Bucket → Type 0
  Consistent tx = IsConsistent tx.db

  -- The id of an object that is found in a consistent catalog holds no NUL.
  pub found_clean :
      (tx : Tx Bucket) (k : Bytes) (o : ObjectVersion)
      → Consistent tx
      → get tx.objects k ≡ some o
      → Lacks nul o.id
  found_clean tx k o v e = let i = v.at_key k o e in subst (Lacks nul) (sym i.own_id) i.id_clean

  leased_by_lem :
      (tx : Tx Bucket) (claim : Claim) (lease : Bytes) (o : ObjectVersion)
      → leased_by tx claim lease ≡ some o
      → (get tx.objects claim.object_id ≡ some o) × (o.state ≡ State.leased) × (o.lease_id ≡ lease)
  unfolding leased_by state_eq
  leased_by_lem tx claim lease o h = ground (arith, bytes_eq_iff o.lease_id lease)

  unqueued_of_leased :
      (tx : Tx Bucket) (k : Bytes) (o : ObjectVersion)
      → Consistent tx
      → get tx.objects k ≡ some o
      → o.state ≡ State.leased
      → o.queue_seq ≡ 0
  unqueued_of_leased tx k o v e l = (v.at_key k o e).unqueued (λ r. cc (l))

  give_back-IsConsistent :
      (policy : Bytes → Policy) (now : Instant) (tx : Tx Bucket) (claim : Claim) (lease : Bytes)
      (opts : ReleaseOptions)
      → Consistent tx
      → Consistent (give_back policy now tx (leased_by tx claim lease) opts)
  unfolding give_back
  give_back-IsConsistent policy now tx claim lease opts v =
      elim (Option-cases (leased_by tx claim lease)) [
        | inl e ↦ rw e v
        | inr (o, e) ↦
            let at = leased_by_lem tx claim lease o e in
            let c : Lacks nul o.id = found_clean tx claim.object_id o v at.0 in
            let z : o.queue_seq ≡ 0 = unqueued_of_leased tx claim.object_id o v at.0 at.1 in
            let tx' : Tx Bucket = record tx {
              db = record tx.db { leases = delete tx.leases (time_id_key o.lease_until o.id) };
            } in
            rw e (
              if_intro (λ o'. Consistent (after_delivery policy now tx' o' opts))
                (opts.uncounted && ltb 0 o.attempts)
                (λ _.
                  after_delivery-IsConsistent policy now tx tx'
                    (record o { attempts = o.attempts - 1 }) opts v
                    (Frame-delete_lease tx.db o.id o.lease_until) c z)
                (λ _.
                  after_delivery-IsConsistent policy now tx tx' o opts v
                    (Frame-delete_lease tx.db o.id o.lease_until) c z))
      ]

  -- A consistent catalog stays so when only buckets beside the four change.
  pub same-IsConsistent :
      (a b : Db Bucket)
      → IsConsistent a
      → b.objects ≡ a.objects
      → b.queue ≡ a.queue
      → b.queue_seg ≡ a.queue_seg
      → b.leases ≡ a.leases
      → IsConsistent b
  same-IsConsistent a b v o q s l = record {
    at_key = λ k p e.
        let i = v.at_key k p (ap (λ t. get t k) (sym o) ∙ e) in
        record {
          own_id = i.own_id;
          id_clean = i.id_clean;
          queued = λ r. (rw q (i.queued r).0, rw s (i.queued r).1, (i.queued r).2);
          unqueued = i.unqueued;
          leased = λ r. rw l (i.leased r);
        };
  }

  -- `ReleaseWith` keeps the catalog consistent, whatever the options.
  pub release_tx-IsConsistent :
      (policy : Bytes → Policy) (now : Instant) (tx : Tx Bucket) (tenant lease : Bytes)
      (opts : ReleaseOptions)
      → Consistent tx
      → Ensures Consistent (release_tx policy now tx tenant lease opts)
  unfolding release_tx
  release_tx-IsConsistent policy now tx tenant lease opts v =
      Ensures-or_fail Consistent (get tx.claims lease) Error.not_found _ (λ claim e.
        Ensures-guard Consistent (bytes_eq claim.tenant tenant) Error.lease_mismatch _ (λ own.
          give_back-IsConsistent policy now _ claim lease opts
            (same-IsConsistent tx.db _ v refl refl refl refl)))

  pub is_live_lem :
      (o : ObjectVersion) (lease : Bytes) (now : Instant)
      → is_live o lease now ≡ true
      → (o.lease_id ≡ lease) × (o.state ≡ State.leased) × (now < o.lease_until)
  unfolding is_live state_eq
  is_live_lem o lease now h = ground (arith, bytes_eq_iff o.lease_id lease)

  -- The renewed lease of a leased object, in the expiry index and in the claim.
  abbrev renewed : Tx Bucket → Claim → ObjectVersion → Bytes → Instant → Instant → Tx Bucket
  renewed tx claim o lease now until =
      put_object
        (record tx {
          db = record tx.db {
            leases =
                put (delete tx.leases (time_id_key o.lease_until o.id)) (time_id_key until o.id)
                  lease;
            claims = put tx.claims lease (record claim { lease_until = until });
          };
        })
        (record o { lease_until = until; updated_at = now })

  renewed-IsConsistent :
      (tx : Tx Bucket) (claim : Claim) (o : ObjectVersion) (lease : Bytes) (now until : Instant)
      → Consistent tx
      → get tx.objects claim.object_id ≡ some o
      → (o.lease_id ≡ lease) × (o.state ≡ State.leased)
      → Consistent (renewed tx claim o lease now until)
  unfolding put_object
  renewed-IsConsistent tx claim o lease now until v f at =
      let without : Db Bucket = record tx.db {
        leases = delete tx.leases (time_id_key o.lease_until o.id);
      } in
      let moved : Db Bucket = record without {
        leases = put without.leases (time_id_key until o.id) lease;
      } in
      put_object-IsConsistent tx.db _ (record o { lease_until = until; updated_at = now }) v
        (Frame-trans o.id tx.db without _ (Frame-delete_lease tx.db o.id o.lease_until) (
          Frame-trans o.id without moved _ (Frame-put_lease without o.id until lease)
            (Frame-same o.id moved _ refl refl refl refl)))
        (record {
          own_id = refl;
          id_clean = found_clean tx claim.object_id o v f;
          queued = λ r. cc (r, at.1);
          unqueued = λ r. unqueued_of_leased tx claim.object_id o v f at.1;
          leased = λ l.
              get-put_self without.leases (time_id_key until o.id) lease
              ∙ ap (λ (x : Bytes). some x) (sym at.0);
        })

  -- `Renew` moves the entry of the expiry index along with the lease.
  pub renew_tx-IsConsistent :
      (now : Instant) (tx : Tx Bucket) (tenant lease : Bytes) (ttl : ℕ)
      → Consistent tx
      → Ensures (λ (r : Tx Bucket × Claim). Consistent r.0) (renew_tx now tx tenant lease ttl)
  unfolding renew_tx
  renew_tx-IsConsistent now tx tenant lease ttl v =
      let P : Tx Bucket × Claim → Type 0 = (λ r. Consistent r.0) in
      Ensures-or_fail P (get tx.claims lease) Error.not_found _ (λ claim e.
        Ensures-guard P (bytes_eq claim.tenant tenant) Error.lease_mismatch _ (λ own.
          Ensures-or_fail P (get tx.objects claim.object_id) Error.lease_mismatch _ (λ o f.
            Ensures-guard P (is_live o lease now) Error.lease_mismatch _ (λ live.
              let at = is_live_lem o lease now live in
              renewed-IsConsistent tx claim o lease now (now + extension ttl claim.lease_seconds) v
                f (at.0, at.1)))))
