-- ===== src/Bolt.antt =====
-- go.etcd.io/bbolt as internal/store uses it: operations with their documented behaviour, a
-- parameter of everything that touches the catalog. encoding/json keeps the records that the store
-- writes, so the values of a bucket are the decoded records. A put or delete that the library
-- itself refuses (I/O, oversized key) aborts the transaction, and is not modelled.
pub mod Memory
use xsync.Prelude.{ℕ, suc, ◌≡◌, ◌∙◌, ap, Option, none, some, [], if◌then◌else◌}
use xsync.Prelude.Bytes.{Bytes, bytes_eq}
use xsync.Prelude.Assoc.{
  Assoc, lookup, insert, remove, from_key, IsAscending, lookup-insert, lookup-remove,
}

pub record Bolt : Type 1 where
  pub Bucket : Type 0 → Type 0
  -- CreateBucket
  pub create : {V : Type 0} → Bucket V
  pub get : {V : Type 0} → Bucket V → Bytes → Option V
  pub put : {V : Type 0} → Bucket V → Bytes → V → Bucket V
  pub delete : {V : Type 0} → Bucket V → Bytes → Bucket V
  -- The pairs that ForEach, or a cursor from First, visits.
  pub entries : {V : Type 0} → Bucket V → Assoc V
  -- The pairs that a cursor visits from Seek(k) on.
  pub seek : {V : Type 0} → Bucket V → Bytes → Assoc V
  -- Sequence, and the bucket after NextSequence, which returns the new number.
  pub sequence : {V : Type 0} → Bucket V → ℕ
  pub next_sequence : {V : Type 0} → Bucket V → Bucket V
  -- Keys are unique and in byte order, and a read or a walk sees the last write.
  pub ascending : {V : Type 0} (b : Bucket V) → IsAscending (entries b)
  pub get_entries : {V : Type 0} (b : Bucket V) (k : Bytes) → get b k ≡ lookup k (entries b)
  pub seek_entries : {V : Type 0} (b : Bucket V) (k : Bytes) → seek b k ≡ from_key k (entries b)
  pub entries-create : {V : Type 0} → entries (create {V = V}) ≡ []
  pub entries-put :
      {V : Type 0} (b : Bucket V) (k : Bytes) (v : V) → entries (put b k v) ≡ insert k v (entries b)
  pub entries-delete :
      {V : Type 0} (b : Bucket V) (k : Bytes) → entries (delete b k) ≡ remove k (entries b)
  -- NextSequence adds one and touches no key; keys do not touch the sequence.
  pub entries-next : {V : Type 0} (b : Bucket V) → entries (next_sequence b) ≡ entries b
  pub sequence-next : {V : Type 0} (b : Bucket V) → sequence (next_sequence b) ≡ suc (sequence b)
  pub sequence-put :
      {V : Type 0} (b : Bucket V) (k : Bytes) (v : V) → sequence (put b k v) ≡ sequence b
  pub sequence-delete : {V : Type 0} (b : Bucket V) (k : Bytes) → sequence (delete b k) ≡ sequence b

module _ ⦃bolt : Bolt⦄ {V : Type 0} where
  open bolt use {
    Bucket, get, put, delete, entries, next_sequence, get_entries, entries-put, entries-delete,
    entries-next,
  }

  pub get-put :
      (b : Bucket V) (k j : Bytes) (v : V)
      → get (put b k v) j ≡ (if bytes_eq k j then some v else get b j)
  get-put b k j v = simp (get_entries, entries-put, lookup-insert)

  pub get-delete :
      (b : Bucket V) (k j : Bytes) → get (delete b k) j ≡ (if bytes_eq k j then none else get b j)
  get-delete b k j = simp (get_entries, entries-delete, lookup-remove)

  pub get-next : (b : Bucket V) (j : Bytes) → get (next_sequence b) j ≡ get b j
  get-next b j = simp (get_entries, entries-next)
