-- ===== src/Store/Error.antt =====
-- The errors of internal/store/store.go and of the capacity gate, and Go's (value, error) results.
use xsync.Prelude.{Bool, true, false, Option, none, some}

pub data Error : Type 0 where
  not_found lease_mismatch conflict insufficient upload_blocked draining quota busy : Error
  is_directory not_directory invalid_offset incomplete invalid_path : Error
  -- capacity/controller.go
  critical_capacity uploads_rejected too_many_uploads : Error
  -- errors that have no name of their own
  other : Error

pub data Result {ℓ} (A : Type ℓ) : Type ℓ where
  err : Error → Result A
  ok : A → Result A

-- fmt.Errorf("%w: %w", ErrInvalidPath, err)
abbrev pub as_invalid_path {ℓ} : {A : Type ℓ} → Result A → Result A
as_invalid_path (ok a) = ok a
as_invalid_path (err e) = err invalid_path

-- if v == nil { return e }
abbrev pub or_fail {ℓ} : {A : Type ℓ} → Option A → Error → Result A
or_fail none e = err e
or_fail (some a) e = ok a

-- if !b { return e }
abbrev pub guard : Bool → Error → Result (Unit {0})
guard false e = err e
guard true e = ok tt

-- if err != nil { return err }
infixl 5 ◌>>=◌
abbrev pub ◌>>=◌ {ℓ κ} :
    {Before : Type ℓ} {After : Type κ} → Result Before → (Before → Result After) → Result After
err failure >>= continue = err failure
ok value >>= continue = continue value

infixl 5 ◌>>◌
abbrev pub ◌>>◌ {κ} : {After : Type κ} → Result (Unit {0}) → Result After → Result After
check >> rest = check >>= λ _. rest
