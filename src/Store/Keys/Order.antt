-- ===== src/Store/Keys/Order.antt =====
-- The byte order of the keys of internal/store/schema.go, which its cursors follow.
use xsync.Prelude.{ℕ, ◌^◌, ◌<◌, ◌≡◌, ◌∙◌, true, false, ◌∷◌, ◌++◌, arith, ltb, ◌==◌, if◌then◌else◌}
use xsync.Prelude.Bytes.{Bytes, bytes_lt, bytes_lt-append}
use xsync.Store.Decimal.{bytes_lt-digits}
use xsync.Store.Keys.{Instant, nul, u64key, tskey, queue_key, time_id_key}

bytes_lt-u64key :
    (a b : ℕ) (s t : Bytes)
    → a < 10 ^ 20
    → b < 10 ^ 20
    → bytes_lt (u64key a ++ s) (u64key b ++ t)
      ≡ (if ltb a b then true else if a == b then bytes_lt s t else false)
unfolding u64key
bytes_lt-u64key a b s t h k = bytes_lt-digits 20 a b s t h k

-- Entries of one tenant's queue stand in the order of their sequence numbers, which are 64-bit, and
-- those of one number in the order of their ids.
pub bytes_lt-queue_key :
    (tenant : Bytes) (a b : ℕ) (x y : Bytes)
    → a < 2 ^ 64
    → b < 2 ^ 64
    → bytes_lt (queue_key tenant a x) (queue_key tenant b y)
      ≡ (if ltb a b then true else if a == b then bytes_lt x y else false)
unfolding queue_key bytes_lt
bytes_lt-queue_key tenant a b x y h k =
    bytes_lt-append tenant (nul ∷ (u64key a ++ (nul ∷ x))) (nul ∷ (u64key b ++ (nul ∷ y)))
    ∙ bytes_lt-u64key a b (nul ∷ x) (nul ∷ y) (omega arith) (omega arith)

-- Entries of the lease, stale, held and tombstone indexes stand in the order of their times, for
-- times below 2^63, and those of one time in the order of their ids.
pub bytes_lt-time_id_key :
    (a b : Instant) (x y : Bytes)
    → a < 2 ^ 63
    → b < 2 ^ 63
    → bytes_lt (time_id_key a x) (time_id_key b y)
      ≡ (if ltb a b then true else if a == b then bytes_lt x y else false)
unfolding time_id_key tskey bytes_lt
bytes_lt-time_id_key a b x y h k =
    bytes_lt-u64key a b (nul ∷ x) (nul ∷ y) (omega arith) (omega arith)
