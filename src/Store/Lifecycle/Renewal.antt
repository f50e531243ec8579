-- ===== src/Store/Lifecycle/Renewal.antt =====
-- `Renew` and `OpenClaim` of internal/store/delivery.go.
use xsync.Prelude.{ℕ, ◌*◌, ◌/◌, ◌+◌, ◌<◌, ◌≡◌, refl, sym, ◌∙◌, ap, some, arith}
use xsync.Prelude.Bytes.{Bytes, bytes_eq, bytes_eq_iff}
use xsync.Bolt.{Bolt}
use xsync.Model.{State, ObjectVersion, Claim}
use xsync.Store.Error.{Error}
use xsync.Store.Ensures.{Ensures, Ensures-or_fail, Ensures-guard}
use xsync.Store.Keys.{Instant, time_id_key}
use xsync.Store.Tx.{Tx}
use xsync.Store.Delivery.{put_object}
use xsync.Store.Claiming.{claim_of}
use xsync.Store.Lease.{second, extension, is_live, renew_tx}
use xsync.Store.Index.Placing.{get-put_self}
use xsync.Store.Index.Operations.{Consistent, is_live_lem}

-- A lease is always extended by some time.
extension-positive : (ttl granted : ℕ) → 0 < extension ttl granted
unfolding extension
extension-positive ttl granted = ground arith

module _ ⦃bolt : Bolt⦄ where
  open bolt use {Bucket, get, put}

  -- The lease `lease` of the tenant is alive: its claim and its object are there and agree, and it
  -- ends after `now`.
  unfoldable pub IsAlive : Tx Bucket → Bytes → Bytes → Instant → Type 0
  IsAlive tx tenant lease now =
      (claim : Claim) × (get tx.claims lease ≡ some claim)
      × (claim.tenant ≡ tenant)
      × ((o : ObjectVersion) × (get tx.objects claim.object_id ≡ some o)
          × (o.lease_id ≡ lease)
          × (o.state ≡ State.leased)
          × (now < o.lease_until))

  -- What a renewal leaves: the claim and the object end at the same time, after `now`, and the
  -- expiry index has it.
  unfoldable pub IsRenewed : Tx Bucket → Bytes → Instant → ℕ → Claim → Type 0
  IsRenewed tx lease now ttl c =
      (get tx.claims lease ≡ some c)
      × (now < c.lease_until)
      × (c.lease_until ≡ now + extension ttl c.lease_seconds)
      × ((o : ObjectVersion) × (get tx.objects c.object_id ≡ some o)
          × (o.state ≡ State.leased)
          × (o.lease_id ≡ lease)
          × (o.lease_until ≡ c.lease_until)
          × (get tx.leases (time_id_key o.lease_until o.id) ≡ some lease))

  -- In a consistent catalog `Renew` succeeds only on a lease that is alive, so an expired one is
  -- never revived, and then claim, object and expiry index agree on the new end.
  pub renew_tx-IsRenewed :
      (now : Instant) (tx : Tx Bucket) (tenant lease : Bytes) (ttl : ℕ)
      → Consistent tx
      → Ensures
          (λ (r : Tx Bucket × Claim). IsAlive tx tenant lease now × IsRenewed r.0 lease now ttl r.1)
          (renew_tx now tx tenant lease ttl)
  unfolding renew_tx IsAlive IsRenewed put_object
  renew_tx-IsRenewed now tx tenant lease ttl v =
      let P : Tx Bucket × Claim → Type 0 =
        (λ r. IsAlive tx tenant lease now × IsRenewed r.0 lease now ttl r.1) in
      Ensures-or_fail P (get tx.claims lease) Error.not_found _ (λ claim e.
        Ensures-guard P (bytes_eq claim.tenant tenant) Error.lease_mismatch _ (λ own.
          Ensures-or_fail P (get tx.objects claim.object_id) Error.lease_mismatch _ (λ o f.
            Ensures-guard P (is_live o lease now) Error.lease_mismatch _ (λ live.
              let at = is_live_lem o lease now live in
              let id : o.id ≡ claim.object_id = (v.at_key claim.object_id o f).own_id in
              let longer = extension-positive ttl claim.lease_seconds in
              let o' : ObjectVersion = record o {
                lease_until = now + extension ttl claim.lease_seconds;
                updated_at = now;
              } in
              (
                (claim, e, (bytes_eq_iff claim.tenant tenant).0 own, (o, f, at.0, at.1, at.2)),
                (
                  get-put_self tx.claims lease _,
                  omega arith,
                  refl,
                  (
                    o',
                    ap (get (put tx.objects o.id o')) (sym id) ∙ get-put_self tx.objects o.id o',
                    at.1,
                    at.0,
                    refl,
                    get-put_self _ _ lease,
                  ),
                ),
              )))))

  -- A renewal without a length extends a lease by what was granted, if that was whole seconds.
  pub extension-claim_of :
      (tenant client : Bytes) (k : ℕ) (o : ObjectVersion)
      → 0 < k
      → extension 0 (claim_of tenant client (k * second) o).lease_seconds ≡ k * second
  unfolding claim_of extension
  extension-claim_of tenant client k o h =
      let whole : (k * second) / second ≡ k = omega arith in rw whole (ground arith)
