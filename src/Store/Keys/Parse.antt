-- ===== src/Store/Keys/Parse.antt =====
-- What the parsers of internal/store/schema.go read back from the keys that it writes.
use mathlib.Core.List.{append_assoc, append-nil}
use xsync.Prelude.{ℕ, ◌^◌, ◌<◌, ◌≡◌, ◌∙◌, ap, sym, Bool, true, some, [], ◌∷◌, ◌++◌, arith}
use xsync.Prelude.Bytes.{Bytes, cut, Lacks, cut-append, cut_last-append}
use xsync.Store.Decimal.{digits, parse_digits, Lacks-digits, parse_digits-digits}
use xsync.Store.Keys.{
  Instant, nul, u64key, tskey, parse_uint, parse_ts, ns_key, queue_key, queue_seg_key, queue_value,
  parse_queue_value, last_field, parse_tail_key, time_id_key, parse_time_id_key, first_segment,
}

Lacks-u64key : (n : ℕ) → Lacks nul (u64key n)
unfolding u64key
Lacks-u64key n = Lacks-digits 0 20 n (omega arith)

parse_digits-u64key : (n : ℕ) → n < 10 ^ 20 → parse_digits 0 (u64key n) ≡ some n
unfolding u64key
parse_digits-u64key n h = rw (← append-nil (digits 20 n)) (
    parse_digits-digits 20 0 n [] h ∙ (unfold parse_digits in ap (λ (a : ℕ). some a) (omega arith)))

pub parse_uint-u64key : (n : ℕ) → n < 2 ^ 64 → parse_uint (u64key n) ≡ n
unfolding parse_uint
parse_uint-u64key n h = ground (arith, parse_digits-u64key n (omega arith))

pub parse_ts-tskey : (t : Instant) → t < 2 ^ 63 → parse_ts (tskey t) ≡ t
unfolding parse_ts tskey
parse_ts-tskey t h = ground (arith, parse_digits-u64key t (omega arith))

pub Lacks-tskey : (t : Instant) → Lacks nul (tskey t)
unfolding tskey
Lacks-tskey t = Lacks-u64key t

parse_tail_key_split :
    (head field id : Bytes)
    → Lacks nul field
    → Lacks nul id
    → parse_tail_key ((head ++ (nul ∷ field)) ++ (nul ∷ id)) ≡ (parse_uint field, id)
unfolding last_field parse_tail_key
parse_tail_key_split head field id hf hi =
    ground
      (arith, cut_last-append nul (head ++ (nul ∷ field)) id hi, cut_last-append nul head field hf)

-- The queue walk gets back the sequence number and the id that `queueKey` wrote, for a 64-bit
-- number and an id without NUL.
pub parse_tail_key-queue_key :
    (tenant id : Bytes) (seq : ℕ)
    → Lacks nul id
    → seq < 2 ^ 64
    → parse_tail_key (queue_key tenant seq id) ≡ (seq, id)
unfolding queue_key
parse_tail_key-queue_key tenant id seq h b =
    rw (← append_assoc tenant (nul ∷ u64key seq) (nul ∷ id)) (
      parse_tail_key_split tenant (u64key seq) id (Lacks-u64key seq) h
      ∙ ap (λ (n : ℕ). (n, id)) (parse_uint-u64key seq b))

-- The walk by first segment gets back what `queueSegKey` wrote, for a 64-bit number and an id
-- without NUL.
pub parse_tail_key-queue_seg_key :
    (tenant p id : Bytes) (seq : ℕ)
    → Lacks nul id
    → seq < 2 ^ 64
    → parse_tail_key (queue_seg_key tenant p seq id) ≡ (seq, id)
unfolding queue_seg_key
parse_tail_key-queue_seg_key tenant p id seq h b =
    rw
      (
        ← append_assoc (first_segment p) (nul ∷ u64key seq) (nul ∷ id),
        ← append_assoc tenant (nul ∷ (first_segment p ++ (nul ∷ u64key seq))) (nul ∷ id),
        ← append_assoc tenant (nul ∷ first_segment p) (nul ∷ u64key seq),
      )
      (parse_tail_key_split (tenant ++ (nul ∷ first_segment p)) (u64key seq) id (Lacks-u64key seq) h
        ∙ ap (λ (n : ℕ). (n, id)) (parse_uint-u64key seq b))

-- A claim gets back the time and the path that `queueValue` wrote, for times up to year 2262.
pub parse_queue_value-queue_value :
    (t : Instant) (p : Bytes) → t < 2 ^ 63 → parse_queue_value (queue_value t p) ≡ (t, p)
unfolding parse_queue_value queue_value
parse_queue_value-queue_value t p h =
    rw (cut-append nul (tskey t) p (Lacks-tskey t)) (ap (λ (n : ℕ). (n, p)) (parse_ts-tskey t h))

-- A pass gets back the time and the id that `timeIDKey` wrote, for times up to year 2262.
pub parse_time_id_key-time_id_key :
    (t : Instant) (id : Bytes) → t < 2 ^ 63 → parse_time_id_key (time_id_key t id) ≡ (t, id)
unfolding parse_time_id_key time_id_key
parse_time_id_key-time_id_key t id h =
    rw (cut-append nul (tskey t) id (Lacks-tskey t)) (ap (λ (n : ℕ). (n, id)) (parse_ts-tskey t h))

-- Two namespace keys are equal only for the same tenant and the same path, for tenants without NUL.
pub ns_key_injective :
    (t u p q : Bytes) → Lacks nul t → Lacks nul u → ns_key t p ≡ ns_key u q → (t ≡ u) × (p ≡ q)
unfolding ns_key
ns_key_injective t u p q ht hu e =
    cc_parts (sym (cut-append nul t p ht) ∙ ap (cut nul) e ∙ cut-append nul u q hu)
  where
    cc_parts : ◌≡◌ {A = Bytes × Bytes × Bool} (t, p, true) (u, q, true) → (t ≡ u) × (p ≡ q)
    cc_parts h = (ap (λ x. x.0) h, ap (λ x. x.1) h)
