-- ===== src/Upload/Hasher.antt =====
-- `streamHasher` of internal/store/upload.go, with its pending chunks by offset, and the staging
-- file that it follows, as os.File writes and truncates it. Writes come one at a time, under h.mu.
pub mod Chunks
pub mod Digest
pub mod InOrder
use xsync.Prelude.{
  ℕ, zero, suc, ◌+◌, ◌-◌, ◌*◌, Bool, true, false, not, ◌&&◌, ◌||◌, Option, none, some, List, [],
  ◌∷◌, ◌++◌, ◌==◌, ltb, leb, if◌then◌else◌, length,
}
use xsync.Prelude.Bytes.{Bytes}

-- map[int64][]byte
unfoldable pub chunk_at : ℕ → List (ℕ × Bytes) → Option Bytes
chunk_at k [] = none
chunk_at k ((j, q) ∷ m) = if j == k then some q else chunk_at k m

unfoldable pub drop_chunk : ℕ → List (ℕ × Bytes) → List (ℕ × Bytes)
drop_chunk k [] = []
drop_chunk k ((j, q) ∷ m) = let rest = drop_chunk k m in if j == k then rest else (j, q) ∷ rest

-- The digest state is what was written to it: sha256 reads its input in order.
pub record StreamHasher : Type 0 where
  pub h : Bytes
  pub next : ℕ
  pub pending : List (ℕ × Bytes)
  pub held : ℕ
  pub valid : Bool

-- 32 << 20
abbrev pub max_reorder_bytes : ℕ
max_reorder_bytes = 32 * 1_048_576

abbrev pub new_stream_hasher : StreamHasher
new_stream_hasher = record { h = []; next = 0; pending = []; held = 0; valid = true }

abbrev pub invalidate : StreamHasher → StreamHasher
invalidate s = record s { valid = false; pending = []; held = 0 }

-- s.h.Write(p); s.next += len(p)
abbrev pub feed : StreamHasher → Bytes → StreamHasher
feed s p = record s { h = s.h ++ p; next = s.next + length p }

-- The loop over the chunks that have become due. A round takes one, so their number is enough fuel.
unfoldable pub drain : ℕ → StreamHasher → StreamHasher
drain zero s = s
drain (suc fuel) s = elim (chunk_at s.next s.pending) [
  | none ↦ s
  | some q ↦
      drain fuel
        (feed (record s { pending = drop_chunk s.next s.pending; held = s.held - length q }) q)
]

unfoldable pub put_aside : StreamHasher → Bytes → ℕ → StreamHasher
put_aside s p off = elim (chunk_at off s.pending) [
  | some q ↦ invalidate s
  | none ↦ record s { pending = (off, p) ∷ s.pending; held = s.held + length p }
]

unfoldable pub write : StreamHasher → Bytes → ℕ → StreamHasher
unfolding drain put_aside
write s p off =
    if not s.valid
    then s
    else if off == s.next
    then drain (length s.pending) (feed s p)
    else if ltb s.next off && leb (s.held + length p) max_reorder_bytes
    then put_aside s p off
    else invalidate s

unfoldable pub truncate : StreamHasher → ℕ → StreamHasher
truncate s size =
    if not s.valid || not (size == s.next) || ltb 0 (length s.pending) then invalidate s else s

-- What `result` hashes: the digest is the one of these bytes.
unfoldable pub result : StreamHasher → ℕ → Option Bytes
result s size =
    if not s.valid || ltb 0 (length s.pending) || not (s.next == size) then none else some s.h

-- The byte at a position; 0 past the end, as a hole in a file reads.
unfoldable pub byte_at : Bytes → ℕ → ℕ
byte_at [] i = 0
byte_at (c ∷ p) zero = c
byte_at (c ∷ p) (suc i) = byte_at p i

-- os.File: the bytes of a file by position.
abbrev pub File : Type 0
File = ℕ → ℕ

unfoldable pub file_write : File → Bytes → ℕ → File
unfolding byte_at
file_write f p off i = if leb off i && ltb i (off + length p) then byte_at p (i - off) else f i

unfoldable pub file_truncate : File → ℕ → File
file_truncate f size i = if ltb i size then f i else 0

-- The first `n` bytes, as a read from the start gives them.
unfoldable pub read : File → ℕ → Bytes
read f zero = []
read f (suc n) = f 0 ∷ read (λ i. f (suc i)) n

-- `writeLocked` and `Truncate`, as far as the file and its hasher go.
pub data Edit : Type 0 where
  written : Bytes → ℕ → Edit
  truncated : ℕ → Edit

unfoldable pub edit : Edit → File × StreamHasher → File × StreamHasher
unfolding write truncate file_write file_truncate
edit (written p off) (f, s) = (file_write f p off, write s p off)
edit (truncated size) (f, s) = (file_truncate f size, truncate s size)

unfoldable pub edit_all : List Edit → File × StreamHasher → File × StreamHasher
unfolding edit
edit_all [] fs = fs
edit_all (e ∷ es) fs = edit_all es (edit e fs)
