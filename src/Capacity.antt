-- ===== src/Capacity.antt =====
-- Reservations of disk space: `Reserve`, `reserveFloor`, `AdmitUpload` and `CheckCritical` of
-- internal/capacity/controller.go, as the store's gate. `Sample` measures in floating point, so a
-- measurement is any snapshot.
pub mod Reservations
mod Examples
use xsync.Prelude.{
  ℕ, zero, suc, ◌+◌, ◌-◌, ◌%◌, ◌^◌, Bool, true, false, ◌||◌, ◌&&◌, Option, none, some, List, [],
  ◌∷◌, ◌==◌, ltb, if◌then◌else◌,
}
use xsync.Prelude.Int.{ℤ, pos, pos_part, ◌+ℤ◌, ◌-ℤ◌}
use xsync.Store.Error.{Error, Result, ok, err}

-- What the gate reads of a `Snapshot`.
pub record Snapshot : Type 0 where
  pub total_bytes : ℕ
  pub available_bytes : ℕ
  pub reject_new : Bool
  pub critical : Bool

pub record Controller : Type 0 where
  -- c.cfg.MinFreeBytes
  pub min_free_bytes : ℕ
  -- uint64(float64(total) * (100 - c.cfg.CriticalPercent) / 100)
  pub critical_free : ℕ → ℕ
  pub snapshot : Snapshot
  pub reserved : ℤ
  -- the release functions that were handed out and not yet called, with their bytes
  pub live : List (ℕ × ℕ)
  pub issued : ℕ

unfoldable pub reserve_floor : Controller → ℕ → ℕ
reserve_floor c total =
    if ltb c.min_free_bytes (c.critical_free total) then c.critical_free total else c.min_free_bytes

unfoldable pub admit_upload : Controller → Result (Unit {0})
admit_upload c =
    if c.snapshot.critical
    then err Error.critical_capacity
    else if c.snapshot.reject_new
    then err Error.uploads_rejected
    else ok tt

unfoldable pub check_critical : Controller → Result (Unit {0})
check_critical c = if c.snapshot.critical then err Error.critical_capacity else ok tt

-- The refusal for lack of room; uint64 sums wrap around.
unfoldable pub lacks_room : Controller → ℕ → Bool
unfolding reserve_floor
lacks_room c n =
    let total = c.snapshot.total_bytes in
    let available = c.snapshot.available_bytes in
    let needed = (pos_part c.reserved + reserve_floor c total) % 2 ^ 64 in
    ltb 0 total && (ltb available needed || ltb (available - needed) n)

pub data Reservation : Type 0 where
  refused : Reservation
  -- a release function that does nothing
  nothing_held : Reservation
  held : ℕ → Reservation

unfoldable pub reserve : Controller → ℕ → Controller × Reservation
unfolding lacks_room
reserve c n =
    if n == 0
    then (c, nothing_held)
    else if c.snapshot.critical || c.snapshot.reject_new
    then (c, refused)
    else if lacks_room c n
    then (c, refused)
    else (
      record c {
        reserved = c.reserved +ℤ pos n;
        live = (c.issued, n) ∷ c.live;
        issued = suc c.issued;
      },
      held c.issued,
    )

-- once.Do: the bytes go back with the first call only.
unfoldable pub release_live : ℕ → List (ℕ × ℕ) → Option (ℕ × List (ℕ × ℕ))
release_live k [] = none
release_live k ((j, n) ∷ m) =
    let rest = release_live k m in
    if j == k then some (n, m) else elim rest [ none ↦ none | some (x, m') ↦ some (x, (j, n) ∷ m') ]

unfoldable pub release : Controller → ℕ → Controller
unfolding release_live
release c k = elim (release_live k c.live) [
  | none ↦ c
  | some (n, rest) ↦ record c { reserved = c.reserved -ℤ pos n; live = rest }
]

pub data Event : Type 0 where
  asked : ℕ → Event
  released : ℕ → Event

-- The calls of the users of one snapshot, in any order.
unfoldable pub run : List Event → Controller → Controller
unfolding reserve release
run [] c = c
run (asked n ∷ es) c = run es (reserve c n).0
run (released k ∷ es) c = run es (release c k)

-- `Sample`: a new snapshot.
abbrev pub measure : Controller → Snapshot → Controller
measure c s = record c { snapshot = s }
