-- ===== src/Store/Delivery.antt =====
-- `afterDelivery` and `ReleaseWith` of internal/store/delivery.go: what becomes of a leased object
-- whose lease ends without a commit. `policy` is s.policyFor.
use xsync.Prelude.{
  ℕ, ◌+◌, ◌-◌, Bool, true, false, ◌&&◌, ◌||◌, Option, none, some, [], ◌∷◌, ltb, leb, ◌==◌,
  if◌then◌else◌,
}
use xsync.Prelude.Bytes.{Bytes, codes, bytes_eq, take}
use xsync.Prelude.Int.{pos, ◌-ℤ◌}
use xsync.Bolt.{Bolt}
use xsync.Model.{State, ObjectVersion, Claim}
use xsync.Store.Error.{Error, Result, ok, guard, or_fail, ◌>>=◌, ◌>>◌}
use xsync.Store.Keys.{Instant, time_id_key, parked_key}
use xsync.Store.Tx.{Tx, move}
use xsync.Store.Queue.{enqueue}
use xsync.Store.Policy.{Policy}
use xsync.Store.Delete.{delete_object_tx}

-- strings.EqualFold on ASCII text
to_lower : ℕ → ℕ
to_lower c = if leb b'A' c && leb c b'Z' then c + 32 else c

unfoldable pub equal_fold : Bytes → Bytes → Bool
unfolding to_lower
equal_fold [] [] = true
equal_fold (x ∷ xs) (y ∷ ys) = (to_lower x == to_lower y) && equal_fold xs ys
equal_fold _ _ = false

unfoldable pub state_eq : State → State → Bool
state_eq State.uploading State.uploading = true
state_eq State.finalizing State.finalizing = true
state_eq State.ready State.ready = true
state_eq State.leased State.leased = true
state_eq State.delete_pending State.delete_pending = true
state_eq State.interrupted State.interrupted = true
state_eq State.failed State.failed = true
state_eq State.held State.held = true
state_eq State.parked State.parked = true
state_eq _ _ = false

pub record ReleaseOptions : Type 0 where
  pub reason : Bytes
  pub retry_after : ℕ
  pub permanent : Bool
  pub uncounted : Bool

-- truncate(s, 512)
abbrev pub max_reason : ℕ
max_reason = 512

-- The object without its lease.
unfoldable pub end_lease : Instant → ObjectVersion → Bytes → ObjectVersion
end_lease now o reason = record o {
  lease_id = [];
  lease_client = [];
  lease_until = 0;
  updated_at = now;
  last_error = if bytes_eq reason [] then o.last_error else take max_reason reason;
}

module _ ⦃bolt : Bolt⦄ where
  open bolt use {Bucket, get, put, delete}

  unfoldable pub put_object : Tx Bucket → ObjectVersion → Tx Bucket
  put_object tx o = record tx { db = record tx.db { objects = put tx.objects o.id o } }

  unfoldable pub park : Instant → Tx Bucket → ObjectVersion → Tx Bucket
  unfolding put_object
  park now tx o =
      let why =
        if bytes_eq o.last_error [] then codes "delivery attempts exhausted" else o.last_error in
      let o' = record o { last_error = why; state = State.parked; parked_at = now } in
      put_object
        (record tx {
          db = record tx.db { parked = put tx.parked (parked_key o'.tenant o'.parked_at o'.id) tt };
          delta = move tx.delta o' (some State.leased) (some State.parked);
        })
        o'

  unfoldable pub requeue_leased : Instant → Tx Bucket → ObjectVersion → Instant → Tx Bucket
  unfolding enqueue put_object
  requeue_leased now tx o visible =
      let (tx', o') = enqueue tx (record o { state = State.ready }) visible in
      put_object (record tx' { delta = move tx'.delta o' (some State.leased) (some State.ready) })
        o'

  unfoldable pub after_delivery :
      (Bytes → Policy) → Instant → Tx Bucket → ObjectVersion → ReleaseOptions → Tx Bucket
  unfolding end_lease park requeue_leased
  after_delivery policy now tx o opts =
      let o' = end_lease now o opts.reason in
      if o'.retracted
      then delete_object_tx now tx o' (codes "retracted")
      else if opts.permanent || leb (policy o'.tenant).max_attempts o'.attempts
      then park now tx o'
      else requeue_leased now tx o' (now + opts.retry_after)

  -- The object that the lease holds, if it still does.
  unfoldable pub leased_by : Tx Bucket → Claim → Bytes → Option ObjectVersion
  unfolding state_eq
  leased_by tx claim lease = elim (get tx.objects claim.object_id) [
    | none ↦ none
    | some o ↦ if bytes_eq o.lease_id lease && state_eq o.state State.leased then some o else none
  ]

  -- The part of `ReleaseWith` after the claim is gone.
  unfoldable pub give_back :
      (Bytes → Policy) → Instant → Tx Bucket → Option ObjectVersion → ReleaseOptions → Tx Bucket
  unfolding after_delivery
  give_back policy now tx none opts = tx
  give_back policy now tx (some o) opts =
      let o' =
        if opts.uncounted && ltb 0 o.attempts then record o { attempts = o.attempts - 1 } else o in
      after_delivery policy now
        (record tx {
          db = record tx.db { leases = delete tx.leases (time_id_key o.lease_until o.id) };
        })
        o' opts

  unfoldable pub release_tx :
      (Bytes → Policy) → Instant → Tx Bucket → Bytes → Bytes → ReleaseOptions → Result (Tx Bucket)
  unfolding leased_by give_back
  release_tx policy now tx tenant lease opts = do
    claim ← or_fail (get tx.claims lease) Error.not_found
    guard (bytes_eq claim.tenant tenant) Error.lease_mismatch
    let tx' : Tx Bucket = record tx {
      db = record tx.db { claims = delete tx.claims lease };
      delta = record tx.delta { claims = tx.delta.claims -ℤ pos 1 };
    }
    ok (give_back policy now tx' (leased_by tx' claim lease) opts)
