-- ===== src/Capacity/Examples.antt =====
-- Runs of the reservations.
use xsync.Prelude.{◌≡◌, refl, false, [], ◌∷◌, arith, List}
use xsync.Prelude.Int.{pos, ◌+ℤ◌, ◌-ℤ◌}
use xsync.Capacity.{Controller, Event, asked, released, run, reserve_floor}
use xsync.Capacity.Reservations.{IsBalanced, IsCovered, run-IsCovered}

abbrev disk : Controller
disk = record {
  min_free_bytes = 10;
  critical_free = λ total. total;
  snapshot = record {
    total_bytes = 5;
    available_bytes = 100;
    reject_new = false;
    critical = false;
  };
  reserved = pos 0;
  live = [];
  issued = 0;
}

abbrev calls : List Event
calls = asked 60 ∷ asked 60 ∷ released 0 ∷ asked 80 ∷ []

disk-IsCovered : IsCovered disk
unfolding reserve_floor
disk-IsCovered = omega arith

run-IsCovered_example : IsBalanced (run calls disk) × IsCovered (run calls disk)
run-IsCovered_example = run-IsCovered calls disk refl disk-IsCovered (omega arith) (omega arith)

-- The second request is refused, the third fits after the release.
reserved_after_calls : (run calls disk).reserved ≡ pos 80
unfolding run ◌+ℤ◌ ◌-ℤ◌
reserved_after_calls = refl
