-- ===== src/Upload/File.antt =====
-- The contents of an os.File as a list of bytes: `WriteAt` and `Truncate`, beside the file by
-- position of Upload/Hasher.antt.
use xsync.Prelude.{
  ℕ, zero, suc, ◌+◌, ◌≤◌, ◌≡◌, refl, ap, [], ◌∷◌, ltb, max, if◌then◌else◌, length, arith,
}
use mathlib.Core.Path.{fun_ext}
use xsync.Prelude.Bytes.{Bytes, take}
use xsync.Upload.Hasher.{byte_at, file_write, file_truncate, read}

overwrite : Bytes → Bytes → Bytes
overwrite [] p = p
overwrite (c ∷ l) [] = c ∷ l
overwrite (c ∷ l) (x ∷ p) = x ∷ overwrite l p

-- WriteAt(p, off) with `p` nonempty; a gap before `off` reads as zeros.
unfoldable pub write_at : Bytes → Bytes → ℕ → Bytes
unfolding overwrite
write_at l p zero = overwrite l p
write_at [] p (suc off) = 0 ∷ write_at [] p off
write_at (c ∷ l) p (suc off) = c ∷ write_at l p off

-- Truncate(size) cuts the file or extends it with zeros.
unfoldable pub cut_to : Bytes → ℕ → Bytes
cut_to l zero = []
cut_to [] (suc n) = 0 ∷ cut_to [] n
cut_to (c ∷ l) (suc n) = c ∷ cut_to l n

byte_at-overwrite :
    (l p : Bytes) (i : ℕ)
    → byte_at (overwrite l p) i ≡ (if ltb i (length p) then byte_at p i else byte_at l i)
unfolding byte_at overwrite
byte_at-overwrite [] [] i = ground arith
byte_at-overwrite [] (x ∷ p) zero = ground arith
byte_at-overwrite [] (x ∷ p) (suc i) = ground (arith, byte_at-overwrite [] p i)
byte_at-overwrite (c ∷ l) [] i = ground arith
byte_at-overwrite (c ∷ l) (x ∷ p) zero = ground arith
byte_at-overwrite (c ∷ l) (x ∷ p) (suc i) = ground (arith, byte_at-overwrite l p i)

pub byte_at-write_at :
    (l p : Bytes) (off i : ℕ) → byte_at (write_at l p off) i ≡ file_write (byte_at l) p off i
unfolding write_at file_write byte_at
byte_at-write_at l p zero i = ground (arith, byte_at-overwrite l p i)
byte_at-write_at [] p (suc off) zero = ground arith
byte_at-write_at [] p (suc off) (suc i) = ground (arith, byte_at-write_at [] p off i)
byte_at-write_at (c ∷ l) p (suc off) zero = ground arith
byte_at-write_at (c ∷ l) p (suc off) (suc i) = ground (arith, byte_at-write_at l p off i)

pub byte_at-cut_to : (l : Bytes) (n i : ℕ) → byte_at (cut_to l n) i ≡ file_truncate (byte_at l) n i
unfolding cut_to file_truncate byte_at
byte_at-cut_to l zero i = ground arith
byte_at-cut_to [] (suc n) zero = ground arith
byte_at-cut_to [] (suc n) (suc i) = ground (arith, byte_at-cut_to [] n i)
byte_at-cut_to (c ∷ l) (suc n) zero = ground arith
byte_at-cut_to (c ∷ l) (suc n) (suc i) = ground (arith, byte_at-cut_to l n i)

length-overwrite : (l p : Bytes) → length (overwrite l p) ≡ max (length l) (length p)
unfolding overwrite
length-overwrite [] p = omega arith
length-overwrite (c ∷ l) [] = omega arith
length-overwrite (c ∷ l) (x ∷ p) = omega (arith, length-overwrite l p)

pub length-write_at :
    (l p : Bytes) (off : ℕ) → length (write_at l p off) ≡ max (length l) (off + length p)
unfolding write_at
length-write_at l p zero = omega (arith, length-overwrite l p)
length-write_at [] p (suc off) = omega (arith, length-write_at [] p off)
length-write_at (c ∷ l) p (suc off) = omega (arith, length-write_at l p off)

pub length-cut_to : (l : Bytes) (n : ℕ) → length (cut_to l n) ≡ n
unfolding cut_to
length-cut_to l zero = refl
length-cut_to [] (suc n) = omega (arith, length-cut_to [] n)
length-cut_to (c ∷ l) (suc n) = omega (arith, length-cut_to l n)

pub byte_at_past : (l : Bytes) (i : ℕ) → length l ≤ i → byte_at l i ≡ 0
unfolding byte_at
byte_at_past [] i h = refl
byte_at_past (c ∷ l) zero h = absurd (omega arith)
byte_at_past (c ∷ l) (suc i) h = byte_at_past l i (omega arith)

-- A read of the whole file.
pub read-byte_at : (l : Bytes) → read (byte_at l) (length l) ≡ l
unfolding read byte_at
read-byte_at [] = refl
read-byte_at (c ∷ l) = ap (λ t. c ∷ t) (read-byte_at l)

pub file_of-write_at :
    (l p : Bytes) (off : ℕ) → byte_at (write_at l p off) ≡ file_write (byte_at l) p off
file_of-write_at l p off = fun_ext (byte_at-write_at l p off)

pub file_of-cut_to : (l : Bytes) (n : ℕ) → byte_at (cut_to l n) ≡ file_truncate (byte_at l) n
file_of-cut_to l n = fun_ext (byte_at-cut_to l n)

pub length-take : (n : ℕ) (s : Bytes) → n ≤ length s → length (take n s) ≡ n
unfolding take
length-take zero s h = refl
length-take (suc n) [] h = absurd (omega arith)
length-take (suc n) (c ∷ s) h = omega (arith, length-take n s (omega arith))
