-- ===== src/Store/Lease.antt =====
-- `Renew` and `OpenClaim` of internal/store/delivery.go.
use xsync.Prelude.{ℕ, ◌+◌, ◌*◌, Bool, ◌&&◌, ltb, if◌then◌else◌}
use xsync.Prelude.Bytes.{Bytes, bytes_eq}
use xsync.Bolt.{Bolt}
use xsync.Model.{State, ObjectVersion, Claim}
use xsync.Store.Error.{Error, Result, ok, guard, or_fail, ◌>>=◌, ◌>>◌}
use xsync.Store.Keys.{Instant, time_id_key}
use xsync.Store.Tx.{Tx}
use xsync.Store.Delivery.{state_eq, put_object}

-- time.Second and the default lease of two minutes, in nanoseconds
abbrev pub second : ℕ
second = 1_000_000_000

abbrev pub default_ttl : ℕ
default_ttl = 120 * second

-- The length of the new lease: what is asked for, else what was granted, else the default.
unfoldable pub extension : ℕ → ℕ → ℕ
extension ttl granted =
    if ltb 0 ttl then ttl else if ltb 0 (granted * second) then granted * second else default_ttl

module _ ⦃bolt : Bolt⦄ where
  open bolt use {Bucket, get, put, delete}

  -- The lease still holds the object: it is leased under this id, and not past its end.
  unfoldable pub is_live : ObjectVersion → Bytes → Instant → Bool
  unfolding state_eq
  is_live o lease now =
      bytes_eq o.lease_id lease && state_eq o.state State.leased && ltb now o.lease_until

  unfoldable pub renew_tx : Instant → Tx Bucket → Bytes → Bytes → ℕ → Result (Tx Bucket × Claim)
  unfolding is_live extension put_object
  renew_tx now tx tenant lease ttl = do
    claim ← or_fail (get tx.claims lease) Error.not_found
    guard (bytes_eq claim.tenant tenant) Error.lease_mismatch
    o ← or_fail (get tx.objects claim.object_id) Error.lease_mismatch
    guard (is_live o lease now) Error.lease_mismatch
    let until : Instant = now + extension ttl claim.lease_seconds
    let claim' : Claim = record claim { lease_until = until }
    let o' : ObjectVersion = record o { lease_until = until; updated_at = now }
    ok (
      put_object
          (record tx {
            db = record tx.db {
              leases =
                  put (delete tx.leases (time_id_key o.lease_until o.id)) (time_id_key until o.id)
                    lease;
              claims = put tx.claims lease claim';
            };
          })
          o',
      claim',
    )

  -- The object whose blob a downloader may read.
  unfoldable pub open_claim : Instant → Tx Bucket → Bytes → Bytes → Bytes → Result ObjectVersion
  unfolding is_live
  open_claim now tx tenant id lease = do
    o ← or_fail (get tx.objects id) Error.not_found
    guard (bytes_eq o.tenant tenant) Error.not_found
    guard (is_live o lease now) Error.lease_mismatch
    ok o
