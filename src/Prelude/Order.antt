-- ===== src/Prelude/Order.antt =====
-- The byte order of keys is a strict linear order, and the keys with one prefix are an interval.
use xsync.Prelude.Bytes.{Bytes, bytes_eq, bytes_lt, has_prefix}
use mathlib.Core.Path.{◌≡◌, refl}
use mathlib.Core.Bool.{true, false}
use mathlib.Core.List.{[], ◌∷◌}
use native.Mathlib.Omega.{arith}

pub bytes_lt_irrefl : (a : Bytes) → bytes_lt a a ≡ false
unfolding bytes_lt
bytes_lt_irrefl [] = refl
bytes_lt_irrefl (x ∷ a) = ground (arith, bytes_lt_irrefl a)

pub bytes_lt_trans :
    (a b c : Bytes) → bytes_lt a b ≡ true → bytes_lt b c ≡ true → bytes_lt a c ≡ true
unfolding bytes_lt
bytes_lt_trans [] [] c h k = cc
bytes_lt_trans [] (y ∷ b) [] h k = cc
bytes_lt_trans [] (y ∷ b) (z ∷ c) h k = refl
bytes_lt_trans (x ∷ a) [] c h k = cc
bytes_lt_trans (x ∷ a) (y ∷ b) [] h k = cc
bytes_lt_trans (x ∷ a) (y ∷ b) (z ∷ c) h k = ground (arith, bytes_lt_trans a b c)

-- Of two different keys one is below the other.
pub bytes_lt_total :
    (a b : Bytes) → bytes_eq a b ≡ false → bytes_lt a b ≡ false → bytes_lt b a ≡ true
unfolding bytes_lt bytes_eq
bytes_lt_total [] [] h k = cc
bytes_lt_total [] (y ∷ b) h k = cc
bytes_lt_total (x ∷ a) [] h k = refl
bytes_lt_total (x ∷ a) (y ∷ b) h k = ground (arith, bytes_lt_total a b)

-- A key that has the prefix is not below it.
pub bytes_lt-has_prefix : (k p : Bytes) → has_prefix k p ≡ true → bytes_lt k p ≡ false
unfolding bytes_lt has_prefix
bytes_lt-has_prefix [] [] h = refl
bytes_lt-has_prefix [] (y ∷ p) h = cc
bytes_lt-has_prefix (x ∷ k) [] h = refl
bytes_lt-has_prefix (x ∷ k) (y ∷ p) h = ground (arith, bytes_lt-has_prefix k p)

-- Past the last key with the prefix there is no other: what lies between the prefix and a key that
-- has it has it too.
pub has_prefix_between :
    (j k p : Bytes)
    → bytes_lt j p ≡ false
    → bytes_lt j k ≡ true
    → has_prefix k p ≡ true
    → has_prefix j p ≡ true
unfolding bytes_lt has_prefix
has_prefix_between [] k [] a b c = refl
has_prefix_between (x ∷ j) k [] a b c = refl
has_prefix_between [] k (z ∷ p) a b c = cc
has_prefix_between (x ∷ j) [] (z ∷ p) a b c = cc
has_prefix_between (x ∷ j) (y ∷ k) (z ∷ p) a b c = ground (arith, has_prefix_between j k p)
