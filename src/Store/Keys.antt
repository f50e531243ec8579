-- ===== src/Store/Keys.antt =====
-- The key and value encodings of internal/store/schema.go. An instant is its UnixNano, a number
-- below 2 ^ 63; instants before 1970 are 0, as `tskey` writes them.
pub mod Parse
pub mod Order
use xsync.Prelude.{
  ℕ, ◌-◌, ◌^◌, Bool, true, false, Option, none, some, [], ◌∷◌, ◌++◌, ltb, if◌then◌else◌,
}
use xsync.Prelude.Bytes.{Bytes, codes, cut, cut_last}
use xsync.Store.Decimal.{digits, parse_digits}

-- time.Time
abbrev pub Instant : Type 0
Instant = ℕ

abbrev pub nul : ℕ
nul = 0

abbrev pub slash : ℕ
slash = b'/'

-- fmt.Sprintf("%020d", n): a `uint64` has at most twenty digits.
unfoldable pub u64key : ℕ → Bytes
u64key n = digits 20 n

unfoldable pub tskey : Instant → Bytes
unfolding u64key
tskey t = u64key t

-- strconv.ParseUint(s, 10, 64) with its error dropped: 0 for what is no number (the empty text
-- too), the greatest
-- `uint64` for what is out of range.
unfoldable pub parse_uint : Bytes → ℕ
unfolding parse_digits
parse_uint s = elim (parse_digits 0 s) [
  | some n ↦ if ltb n (2 ^ 64) then n else 2 ^ 64 - 1
  | none ↦ 0
]

-- The same for ParseInt, on a text that has no sign.
unfoldable pub parse_ts : Bytes → Instant
unfolding parse_digits
parse_ts s = elim (parse_digits 0 s) [
  | some n ↦ if ltb n (2 ^ 63) then n else 2 ^ 63 - 1
  | none ↦ 0
]

unfoldable pub ns_key : Bytes → Bytes → Bytes
ns_key tenant name = tenant ++ (nul ∷ name)

unfoldable pub first_segment : Bytes → Bytes
first_segment p = (cut slash p).0

unfoldable pub queue_key : Bytes → ℕ → Bytes → Bytes
queue_key tenant seq id = tenant ++ (nul ∷ (u64key seq ++ (nul ∷ id)))

unfoldable pub queue_seg_key : Bytes → Bytes → ℕ → Bytes → Bytes
queue_seg_key tenant p seq id =
    tenant ++ (nul ∷ (first_segment p ++ (nul ∷ (u64key seq ++ (nul ∷ id)))))

unfoldable pub queue_value : Instant → Bytes → Bytes
queue_value visible p = tskey visible ++ (nul ∷ p)

unfoldable pub parse_queue_value : Bytes → Instant × Bytes
unfolding cut parse_ts
parse_queue_value v = let (ts, p, found) = cut nul v in (parse_ts ts, p)

-- The text between the last NUL of `head` and its end, all of it if there is none.
last_field : Bytes → Bytes
last_field head = elim (cut_last nul head) [ none ↦ head | some (before, after) ↦ after ]

-- Splits "...\0seq\0id".
unfoldable pub parse_tail_key : Bytes → ℕ × Bytes
unfolding last_field parse_uint
parse_tail_key k = elim (cut_last nul k) [
  | none ↦ (0, [])
  | some (head, id) ↦ (parse_uint (last_field head), id)
]

unfoldable pub time_id_key : Instant → Bytes → Bytes
time_id_key t id = tskey t ++ (nul ∷ id)

unfoldable pub parse_time_id_key : Bytes → Instant × Bytes
unfolding cut parse_ts
parse_time_id_key k = let (ts, id, found) = cut nul k in (parse_ts ts, id)

unfoldable pub upload_path_key : Bytes → Bytes → Bytes → Bytes
upload_path_key tenant p id = tenant ++ (nul ∷ (p ++ (nul ∷ id)))

unfoldable pub parked_key : Bytes → Instant → Bytes → Bytes
parked_key tenant at id = tenant ++ (nul ∷ (tskey at ++ (nul ∷ id)))
