-- ===== src/Capacity/Reservations.antt =====
-- Reservations against one snapshot of the disk (internal/capacity/controller.go).
use xsync.Prelude.{
  ℕ, ◌+◌, ◌^◌, ◌≤◌, ◌<◌, ◌≡◌, ◌∙◌, ap, false, ◌||◌, Option, some, List, [], ◌∷◌, ◌==◌, if_intro,
  arith, inl, inr, Option-cases,
}
use xsync.Prelude.Int.{pos, pos_part, ◌+ℤ◌, ◌-ℤ◌}
use xsync.Capacity.{
  Controller, reserve_floor, lacks_room, Reservation, reserve, release_live, release, Event, asked,
  released, run,
}

-- The bytes of the reservations that are not released.
abbrev pub outstanding : List (ℕ × ℕ) → ℕ
outstanding [] = 0
outstanding ((j, n) ∷ m) = n + outstanding m

-- The counter is the sum of the live reservations.
abbrev pub IsBalanced : Controller → Type 0
IsBalanced c = c.reserved ≡ pos (outstanding c.live)

-- What is reserved fits above the floor, by the last measurement.
abbrev pub IsCovered : Controller → Type 0
IsCovered c =
    outstanding c.live + reserve_floor c c.snapshot.total_bytes ≤ c.snapshot.available_bytes

release_live-outstanding :
    (k : ℕ) (m rest : List (ℕ × ℕ)) (n : ℕ)
    → release_live k m ≡ some (n, rest)
    → outstanding m ≡ n + outstanding rest
unfolding release_live
release_live-outstanding k [] rest n h = cc (h)
release_live-outstanding k ((j, x) ∷ m) rest n h =
    if_intro
      (λ (r : Option (ℕ × List (ℕ × ℕ))).
        r ≡ some (n, rest) → x + outstanding m ≡ n + outstanding rest)
      (j == k) (λ _ e. ground arith)
      (λ _. elim (Option-cases (release_live k m)) [
        | inl e ↦ rw e (λ q. cc (q))
        | inr ((y, m'), e) ↦
            let ih = release_live-outstanding k m m' y e in rw e (λ q. ground arith)
      ])
      h

add_pos : (a b : ℕ) → pos a +ℤ pos b ≡ pos (b + a)
unfolding ◌+ℤ◌
add_pos a b = ground arith

sub_pos : (a b : ℕ) → pos (b + a) -ℤ pos b ≡ pos a
unfolding ◌-ℤ◌
sub_pos a b = ground arith

abbrev IsSafe : Controller → Type 0
IsSafe c =
    IsBalanced c
    × IsCovered c
    × (c.snapshot.available_bytes < 2 ^ 63)
    × (0 < c.snapshot.total_bytes)

fits :
    (c : Controller) (n : ℕ)
    → IsSafe c
    → lacks_room c n ≡ false
    → n + outstanding c.live + reserve_floor c c.snapshot.total_bytes ≤ c.snapshot.available_bytes
unfolding lacks_room reserve_floor
fits c n (b, v, small, some_disk) h =
    let r : pos_part c.reserved ≡ outstanding c.live = ap pos_part b in ground arith

reserve-IsSafe : (c : Controller) (n : ℕ) → IsSafe c → IsSafe (reserve c n).0
unfolding reserve reserve_floor
reserve-IsSafe c n (b, v, small, some_disk) =
    let P : Controller × Reservation → Type 0 = (λ r. IsSafe r.0) in
    if_intro P (n == 0) (λ _. (b, v, small, some_disk))
      (λ _.
        if_intro P (c.snapshot.critical || c.snapshot.reject_new) (λ _. (b, v, small, some_disk))
          (λ _.
            if_intro P (lacks_room c n) (λ _. (b, v, small, some_disk))
              (λ e. (
                ap (λ z. z +ℤ pos n) b ∙ add_pos (outstanding c.live) n,
                fits c n (b, v, small, some_disk) e,
                small,
                some_disk,
              ))))

release-IsSafe : (c : Controller) (k : ℕ) → IsSafe c → IsSafe (release c k)
unfolding release reserve_floor
release-IsSafe c k (b, v, small, some_disk) = elim (Option-cases (release_live k c.live)) [
  | inl e ↦ rw (e, release) (b, v, small, some_disk)
  | inr ((n, rest), e) ↦
      let sum : outstanding c.live ≡ n + outstanding rest =
        release_live-outstanding k c.live rest n e in
      rw (e, release)
        (
          ap (λ z. z -ℤ pos n) (b ∙ ap (λ x. pos x) sum) ∙ sub_pos (outstanding rest) n,
          omega (arith, sum, v),
          small,
          some_disk,
        )
]

run-IsSafe : (es : List Event) (c : Controller) → IsSafe c → IsSafe (run es c)
unfolding run reserve
run-IsSafe [] c h = h
run-IsSafe (asked n ∷ es) c h = run-IsSafe es (reserve c n).0 (reserve-IsSafe c n h)
run-IsSafe (released k ∷ es) c h = run-IsSafe es (release c k) (release-IsSafe c k h)

-- However reservations and releases alternate on one measurement of a disk below 2^63 bytes, if what
-- is reserved fits above the critical floor at first, it still does at the end, and the counter is
-- the sum of the reservations that are held: concurrent ones cannot all pass against the same space.
pub run-IsCovered :
    (es : List Event) (c : Controller)
    → IsBalanced c
    → IsCovered c
    → c.snapshot.available_bytes < 2 ^ 63
    → 0 < c.snapshot.total_bytes
    → IsBalanced (run es c) × IsCovered (run es c)
run-IsCovered es c b v small some_disk =
    let r = run-IsSafe es c (b, v, small, some_disk) in (r.0, r.1)
