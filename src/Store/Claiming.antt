-- ===== src/Store/Claiming.antt =====
-- `Claim` and `findCandidates` of internal/store/delivery.go, on one view of the clock and one list
-- of lease ids from `randomID` for each attempt.
pub mod Search
use xsync.Prelude.{
  ℕ, zero, suc, ◌+◌, ◌/◌, Bool, true, false, not, ◌&&◌, ◌||◌, Option, none, some, List, [], ◌∷◌,
  ◌++◌, ltb, leb, ◌==◌, if◌then◌else◌, length,
}
use xsync.Prelude.Bytes.{Bytes, bytes_eq, has_prefix}
use xsync.Prelude.Int.{pos, ◌+ℤ◌}
use xsync.Prelude.Assoc.{Assoc}
use xsync.Bolt.{Bolt}
use xsync.Model.{State, ObjectVersion, Claim}
use xsync.Store.Error.{Error, Result, ok, err, as_invalid_path, guard, ◌>>=◌, ◌>>◌}
use xsync.Store.Path.{path_has_prefix, clean_path}
use xsync.Store.Keys.{Instant, nul, first_segment, parse_queue_value, parse_tail_key, time_id_key}
use xsync.Store.Tx.{Tx, Db, move}
use xsync.Store.Queue.{dequeue}
use xsync.Store.Delivery.{state_eq, put_object}
use xsync.Store.Lease.{second, default_ttl}

abbrev pub max_claim_scan : ℕ
max_claim_scan = 20000

pub record Candidate : Type 0 where
  pub seq : ℕ
  pub id : Bytes

-- The test of one queue entry: deliverable now, and under the prefix.
unfoldable pub selects : Bytes → Instant → Bytes → Bool
unfolding parse_queue_value path_has_prefix
selects prefix now v =
    let (visible, p) = parse_queue_value v in
    not (ltb now visible) && (bytes_eq prefix [] || path_has_prefix p prefix)

unfoldable pub candidate_of : Bytes → Candidate
unfolding parse_tail_key
candidate_of k = let (seq, id) = parse_tail_key k in record { seq = seq; id = id }

-- The cursor loop: `budget` entries may still be looked at, `room` candidates taken.
unfoldable pub scan : Bytes → Bytes → Instant → ℕ → ℕ → Assoc Bytes → List Candidate
unfolding selects candidate_of
scan seek prefix now budget room [] = []
scan seek prefix now zero room ((k, v) ∷ rest) = []
scan seek prefix now (suc budget) zero ((k, v) ∷ rest) = []
scan seek prefix now (suc budget) (suc room) ((k, v) ∷ rest) =
    let hit = candidate_of k ∷ scan seek prefix now budget room rest in
    let miss = scan seek prefix now budget (suc room) rest in
    if has_prefix k seek then if selects prefix now v then hit else miss else []

-- sortCandidates: an insertion sort by sequence number.
unfoldable pub insert_candidate : Candidate → List Candidate → List Candidate
insert_candidate c [] = c ∷ []
insert_candidate c (d ∷ ds) = if ltb d.seq c.seq then d ∷ insert_candidate c ds else c ∷ d ∷ ds

unfoldable pub sort_candidates : List Candidate → List Candidate
unfolding insert_candidate
sort_candidates [] = []
sort_candidates (c ∷ cs) = insert_candidate c (sort_candidates cs)

-- The search stays inside the prefix's first segment, where only that segment is in queue order.
unfoldable pub seek_text : Bytes → Bytes → Bytes
seek_text tenant prefix =
    if bytes_eq prefix []
    then tenant ++ (nul ∷ [])
    else tenant ++ (nul ∷ (first_segment prefix ++ (nul ∷ [])))

module _ ⦃bolt : Bolt⦄ where
  open bolt use {Bucket, get, put, delete, seek}

  unfoldable pub find_candidates : Db Bucket → Bytes → Bytes → ℕ → Instant → List Candidate
  unfolding seek_text scan sort_candidates
  find_candidates db tenant prefix max now =
      let text = seek_text tenant prefix in
      if bytes_eq prefix []
      then scan text prefix now max_claim_scan max (seek db.queue text)
      else sort_candidates (scan text prefix now max_claim_scan max (seek db.queue_seg text))

  -- The object of the candidate, unless it was taken since the search.
  unfoldable pub still_ready : Tx Bucket → Candidate → Option ObjectVersion
  unfolding state_eq
  still_ready tx c = elim (get tx.objects c.id) [
    | none ↦ none
    | some o ↦ if state_eq o.state State.ready && o.queue_seq == c.seq then some o else none
  ]

  -- The object as the lease holds it.
  unfoldable pub lease_object : Instant → Bytes → ℕ → Bytes → ObjectVersion → ObjectVersion
  lease_object now client ttl lease o = record o {
    state = State.leased;
    lease_id = lease;
    lease_client = client;
    lease_until = now + ttl;
    updated_at = now;
    attempts = o.attempts + 1;
  }

  unfoldable pub claim_of : Bytes → Bytes → ℕ → ObjectVersion → Claim
  claim_of tenant client ttl o = record {
    lease_id = o.lease_id;
    object_id = o.id;
    tenant = tenant;
    client_id = client;
    path = o.path;
    size = o.size;
    sha256 = o.sha256;
    version = o.version;
    attempts = o.attempts;
    lease_until = o.lease_until;
    lease_seconds = ttl / second;
  }

  unfoldable pub take_lease :
      Bytes → Bytes → ℕ → Instant → Bytes → Tx Bucket → ObjectVersion → Tx Bucket × Claim
  unfolding dequeue lease_object claim_of put_object
  take_lease tenant client ttl now lease tx o =
      let (tx', o') = dequeue tx o in
      let held = lease_object now client ttl lease o' in
      let claim = claim_of tenant client ttl held in
      let tx'' = put_object tx' held in
      (
        record tx'' {
          db = record tx''.db {
            claims = put tx''.claims lease claim;
            leases = put tx''.leases (time_id_key held.lease_until held.id) lease;
          };
          delta = record (move tx''.delta held (some State.ready) (some State.leased)) {
            claims = tx''.delta.claims +ℤ pos 1;
          };
        },
        claim,
      )

  -- The loop of the write transaction. Each object takes one id of `leases`; `randomID` fails where
  -- none is left.
  unfoldable pub claim_all :
      Bytes
      → Bytes
      → ℕ
      → Instant
      → List Candidate
      → List Bytes
      → Tx Bucket
      → Result (Tx Bucket × List Claim)
  claim_all tenant client ttl now [] leases tx = ok (tx, [])
  claim_all tenant client ttl now (c ∷ cs) leases tx = elim (still_ready tx c) [
    | none ↦ claim_all tenant client ttl now cs leases tx
    | some o ↦ elim leases [
      | [] ↦ err Error.other
      | lease ∷ rest ↦
          let (tx', claim) = take_lease tenant client ttl now lease tx o in
          do (tx'', claims) ← claim_all tenant client ttl now cs rest tx'; ok (tx'', claim ∷ claims)
    ]
  ]

-- One round of the loop in `Claim`: the clock, the catalog that the search saw, the one that the
-- write transaction found, and the ids that it drew.
pub record Attempt (B : Type 0 → Type 0) : Type 0 where
  pub now : Instant
  pub seen : Db B
  pub tx : Tx B
  pub leases : List Bytes

abbrev pub at_least_one : ℕ → ℕ
at_least_one max = if max == 0 then 1 else max

module _ ⦃bolt : Bolt⦄ where
  open bolt use {Bucket}

  -- At most four rounds; a round that others have emptied is followed by the next.
  unfoldable pub claim_rounds :
      Bytes → Bytes → Bytes → ℕ → ℕ → List (Attempt Bucket) → Result (Tx Bucket × List Claim)
  claim_rounds tenant client prefix ttl max [] = err Error.not_found
  claim_rounds tenant client prefix ttl max (a ∷ rest) =
      elim (find_candidates a.seen tenant prefix max a.now) [
        | [] ↦ err Error.not_found
        | c ∷ cs ↦ do
          (tx, claims) ← claim_all tenant client ttl a.now (c ∷ cs) a.leases a.tx
          elim claims [
            | [] ↦ claim_rounds tenant client prefix ttl max rest
            | claim ∷ more ↦ ok (tx, claim ∷ more)
          ]
      ]

  -- `Claim`, on the rounds that its four attempts meet.
  unfoldable pub claim :
      Bytes → Bytes → Bytes → ℕ → ℕ → List (Attempt Bucket) → Result (Tx Bucket × List Claim)
  claim tenant client prefix ttl max rounds = do
    clean ← as_invalid_path (clean_path prefix)
    claim_rounds tenant client clean (if ltb 0 ttl then ttl else default_ttl) (at_least_one max)
        rounds
