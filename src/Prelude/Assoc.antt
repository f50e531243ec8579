-- ===== src/Prelude/Assoc.antt =====
-- Association lists in ascending byte order of their keys: what a bucket holds, as a cursor walks
-- over it.
use xsync.Prelude.Tests.{if◌then◌else◌, if_intro}
use xsync.Prelude.Bytes.{Bytes, bytes_eq, bytes_eq_iff, bytes_lt}
use xsync.Prelude.Order.{bytes_lt_irrefl, bytes_lt_trans, bytes_lt_total}
use mathlib.Core.Path.{◌≡◌, refl, subst}
use mathlib.Core.Bool.{true}
use mathlib.Core.Option.{Option, none, some}
use mathlib.Core.List.{List, [], ◌∷◌}
use native.Mathlib.Omega.{arith}

abbrev pub Assoc {ℓ} : Type ℓ → Type ℓ
Assoc V = List (Bytes × V)

module _ {ℓ} {V : Type ℓ} where
  unfoldable pub lookup : Bytes → Assoc V → Option V
  lookup k [] = none
  lookup k ((j, v) ∷ m) = if bytes_eq j k then some v else lookup k m

  -- Before the first greater key.
  unfoldable pub insert : Bytes → V → Assoc V → Assoc V
  insert k v [] = (k, v) ∷ []
  insert k v ((j, w) ∷ m) =
      let later = (j, w) ∷ insert k v m in
      if bytes_eq j k then (k, v) ∷ m else if bytes_lt k j then (k, v) ∷ (j, w) ∷ m else later

  unfoldable pub remove : Bytes → Assoc V → Assoc V
  remove k [] = []
  remove k ((j, w) ∷ m) = let rest = remove k m in if bytes_eq j k then rest else (j, w) ∷ rest

  -- Where a cursor stands after Seek(k): at the first key that is not below `k`.
  unfoldable pub from_key : Bytes → Assoc V → Assoc V
  from_key k [] = []
  from_key k ((j, w) ∷ m) = let rest = from_key k m in if bytes_lt j k then rest else (j, w) ∷ m

  pub lookup-insert :
      (k j : Bytes) (v : V) (m : Assoc V)
      → lookup j (insert k v m) ≡ (if bytes_eq k j then some v else lookup j m)
  unfolding lookup insert
  lookup-insert k j v [] = refl
  lookup-insert k j v ((i, w) ∷ m) =
      ground (arith, bytes_eq_iff k j, bytes_eq_iff i k, bytes_eq_iff i j, lookup-insert k j v m)

  pub lookup-remove :
      (k j : Bytes) (m : Assoc V)
      → lookup j (remove k m) ≡ (if bytes_eq k j then none else lookup j m)
  unfolding lookup remove
  lookup-remove k j [] = ground arith
  lookup-remove k j ((i, w) ∷ m) =
      ground (arith, lookup-remove k j m, bytes_eq_iff i k, bytes_eq_iff i j, bytes_eq_iff k j)

  -- Every key is above `lo`.
  abbrev pub Above : Bytes → Assoc V → Type 0
  Above lo [] = Unit {0}
  Above lo ((j, w) ∷ m) = (bytes_lt lo j ≡ true) × Above lo m

  abbrev pub IsAscending : Assoc V → Type 0
  IsAscending [] = Unit {0}
  IsAscending ((j, w) ∷ m) = Above j m × IsAscending m

module _ {ℓ} {V : Type ℓ} where
  Above-mono : (lo hi : Bytes) (m : Assoc V) → bytes_lt lo hi ≡ true → Above hi m → Above lo m
  Above-mono lo hi [] h a = tt
  Above-mono lo hi ((j, w) ∷ m) h a = (bytes_lt_trans lo hi j h a.0, Above-mono lo hi m h a.1)

  Above-insert :
      (lo k : Bytes) (v : V) (m : Assoc V)
      → bytes_lt lo k ≡ true
      → Above lo m
      → Above lo (insert k v m)
  unfolding insert
  Above-insert lo k v [] h a = (h, tt)
  Above-insert lo k v ((j, w) ∷ m) h a =
      if_intro (Above lo) (bytes_eq j k) (λ _. (h, a.1))
        (λ _.
          if_intro (Above lo) (bytes_lt k j) (λ _. (h, (a.0, a.1)))
            (λ _. (a.0, Above-insert lo k v m h a.1)))

  pub insert-IsAscending :
      (k : Bytes) (v : V) (m : Assoc V) → IsAscending m → IsAscending (insert k v m)
  unfolding insert
  insert-IsAscending k v [] h = (tt, tt)
  insert-IsAscending k v ((j, w) ∷ m) h =
      if_intro IsAscending (bytes_eq j k)
        (λ e. (subst (λ i. Above i m) ((bytes_eq_iff j k).0 e) h.0, h.1))
        (λ other.
          if_intro IsAscending (bytes_lt k j) (λ below. ((below, Above-mono k j m below h.0), h))
            (λ e. (
              Above-insert j k v m
                  (bytes_lt_total k j (ground (arith, bytes_eq_iff k j, bytes_eq_iff j k)) e) h.0,
              insert-IsAscending k v m h.1,
            )))

  Above-remove : (lo k : Bytes) (m : Assoc V) → Above lo m → Above lo (remove k m)
  unfolding remove
  Above-remove lo k [] a = tt
  Above-remove lo k ((j, w) ∷ m) a =
      if_intro (Above lo) (bytes_eq j k) (λ _. Above-remove lo k m a.1)
        (λ _. (a.0, Above-remove lo k m a.1))

  pub remove-IsAscending : (k : Bytes) (m : Assoc V) → IsAscending m → IsAscending (remove k m)
  unfolding remove
  remove-IsAscending k [] h = tt
  remove-IsAscending k ((j, w) ∷ m) h =
      if_intro IsAscending (bytes_eq j k) (λ _. remove-IsAscending k m h.1)
        (λ _. (Above-remove j k m h.0, remove-IsAscending k m h.1))

  -- A key below all others is not among them.
  pub lookup-Above : (k : Bytes) (m : Assoc V) → Above k m → lookup k m ≡ none
  unfolding lookup
  lookup-Above k [] a = refl
  lookup-Above k ((j, w) ∷ m) a =
      let above = a.0 in ground (arith, bytes_eq_iff j k, bytes_lt_irrefl k, lookup-Above k m a.1)
