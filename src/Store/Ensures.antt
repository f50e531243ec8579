-- ===== src/Store/Ensures.antt =====
-- Postconditions of fallible code, with one rule for each way in which the store's functions go on.
use xsync.Prelude.{◌≡◌, refl, Bool, true, false, Option, none, some}
use xsync.Store.Error.{Error, Result, ok, err, guard, or_fail, ◌>>=◌, ◌>>◌}

-- A result that is no error satisfies `P`.
abbrev pub Ensures {ℓ κ} : {A : Type ℓ} → (A → Type κ) → Result A → Type κ
Ensures P (ok a) = P a
Ensures P (err e) = Unit

module _ {ℓ κ ι} {A : Type ℓ} {B : Type κ} (P : B → Type ι) where
  pub Ensures-or_fail :
      (o : Option A) (e : Error) (k : A → Result B)
      → ((a : A) → o ≡ some a → Ensures P (k a))
      → Ensures P (or_fail o e >>= k)
  Ensures-or_fail none e k h = tt
  Ensures-or_fail (some a) e k h = h a refl

  pub Ensures-bind :
      (r : Result A) (k : A → Result B)
      → ((a : A) → r ≡ ok a → Ensures P (k a))
      → Ensures P (r >>= k)
  Ensures-bind (ok a) k h = h a refl
  Ensures-bind (err e) k h = tt

module _ {κ ι} {B : Type κ} (P : B → Type ι) where
  pub Ensures-guard :
      (b : Bool) (e : Error) (k : Result B) → (b ≡ true → Ensures P k) → Ensures P (guard b e >> k)
  Ensures-guard true e k h = h refl
  Ensures-guard false e k h = tt

module _ {ℓ κ ι μ} {A : Type ℓ} {B : Type κ} (P : A → Type μ) (Q : B → Type ι) where
  pub Ensures-then :
      (r : Result A) (k : A → Result B)
      → Ensures P r
      → ((a : A) → P a → Ensures Q (k a))
      → Ensures Q (r >>= k)
  Ensures-then (ok a) k p h = h a p
  Ensures-then (err e) k p h = tt
