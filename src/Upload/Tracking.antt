-- ===== src/Upload/Tracking.antt =====
-- What `writeLocked` and `Truncate` of internal/store/upload.go do to a staging file, its coverage
-- and its hasher, and how the three belong together.
pub mod Contents
use xsync.Prelude.{
  ℕ, suc, ◌+◌, ◌-◌, ◌≤◌, ◌<◌, ◌≡◌, ◌⊎◌, true, false, ◌&&◌, Option, none, some, List, [], ◌∷◌, ltb,
  leb, if◌then◌else◌, length, max,
}
use xsync.Prelude.Bytes.{Bytes}
use xsync.Upload.Coverage.{Coverage, add, clip, end}
use xsync.Upload.Coverage.Normal.{IsNormal}
use xsync.Upload.Coverage.Contents.{covered}
use xsync.Upload.Hasher.{StreamHasher, write, truncate, byte_at, Edit, written, truncated}
use xsync.Upload.Hasher.Chunks.{IsFaithful}
use xsync.Upload.File.{write_at, cut_to}

-- if h.hasher != nil { h.hasher.write(p, off) }
unfoldable pub hash_write : Option StreamHasher → Bytes → ℕ → Option StreamHasher
hash_write none p off = none
hash_write (some s) p off = some (write s p off)

unfoldable pub hash_truncate : Option StreamHasher → ℕ → Option StreamHasher
hash_truncate none size = none
hash_truncate (some s) size = some (truncate s size)

-- The bytes that an extension adds are zeros, and count as data.
unfoldable pub cover_truncated : Coverage → ℕ → Coverage
cover_truncated c size = if ltb (end c) size then add (clip c size) (end c) size else clip c size

-- The staging file's contents, and what the handle keeps about them.
pub record Stage : Type 0 where
  pub content : Bytes
  pub cov : Coverage
  pub hasher : Option StreamHasher

-- After the first `n` bytes of `p` were written. Nothing is done for no byte.
unfoldable pub stage_write : Stage → Bytes → ℕ → Stage
unfolding hash_write
stage_write s [] off = s
stage_write s (c ∷ p) off = record {
  content = write_at s.content (c ∷ p) off;
  cov = add s.cov off (off + length (c ∷ p));
  hasher = hash_write s.hasher (c ∷ p) off;
}

unfoldable pub stage_truncate : Stage → ℕ → Stage
unfolding hash_truncate cover_truncated
stage_truncate s size = record {
  content = cut_to s.content size;
  cov = cover_truncated s.cov size;
  hasher = hash_truncate s.hasher size;
}

unfoldable pub stage_edit : Stage → Edit → Stage
unfolding stage_write stage_truncate
stage_edit s (written p off) = stage_write s p off
stage_edit s (truncated size) = stage_truncate s size

unfoldable pub stage_all : Stage → List Edit → Stage
unfolding stage_edit
stage_all s [] = s
stage_all s (e ∷ es) = stage_all (stage_edit s e) es

-- Only covered bytes are there, the others are zeros, and the hasher follows the file.
pub record Tracks (s : Stage) : Type 0 where
  pub normal : IsNormal s.cov
  pub within : (x : ℕ) → covered s.cov x ≡ true → x < length s.content
  pub gaps : (x : ℕ) → covered s.cov x ≡ false → byte_at s.content x ≡ 0
  pub hashed : (t : StreamHasher) → s.hasher ≡ some t → IsFaithful (byte_at s.content, t)

-- An uploader's file: some offsets have a byte, the others were never written.
abbrev pub Sparse : Type 0
Sparse = ℕ → Option ℕ

abbrev pub sparse_write : Sparse → Bytes → ℕ → Sparse
sparse_write f p off x =
    if leb off x && ltb x (off + length p) then some (byte_at p (x - off)) else f x

-- A file of length `n` is cut, or extended by zeros from there.
abbrev pub sparse_truncate : Sparse → ℕ → ℕ → Sparse
sparse_truncate f n size x = if ltb x size then (if leb n x then some 0 else f x) else none

-- The length of a file of length `n` after a write.
abbrev pub length_after : ℕ → Bytes → ℕ → ℕ
length_after n [] off = n
length_after n (c ∷ p) off = max n (off + length (c ∷ p))

-- The edits of a file of length `n` with the bytes of `f`.
pub data SparseRun : Sparse → ℕ → List Edit → Sparse → Type 0 where
  done : {f : Sparse} {n : ℕ} → SparseRun f n [] f
  wrote :
      {f g : Sparse} {n : ℕ} {es : List Edit} (p : Bytes) (off : ℕ)
      → SparseRun (sparse_write f p off) (length_after n p off) es g
      → SparseRun f n (written p off ∷ es) g
  cut :
      {f g : Sparse} {n : ℕ} {es : List Edit} (size : ℕ)
      → SparseRun (sparse_truncate f n size) size es g
      → SparseRun f n (truncated size ∷ es) g

-- No truncation leaves a file that ends with bytes that were never written.
unfoldable pub EndsWritten : Sparse → ℕ → List Edit → Type 0
EndsWritten f n [] = Unit
EndsWritten f n (written p off ∷ es) = EndsWritten (sparse_write f p off) (length_after n p off) es
EndsWritten f n (truncated size ∷ es) =
    ((size ≡ 0) ⊎ (n ≤ size) ⊎ ((b : ℕ) × (f (size - 1) ≡ some b)))
    × EndsWritten (sparse_truncate f n size) size es

-- What of a staging file its uploader meant.
abbrev pub intended : Stage → Sparse
intended s x = if covered s.cov x then some (byte_at s.content x) else none
