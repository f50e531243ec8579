-- ===== src/Netguard/AuthLimiter/Examples.antt =====
-- A limiter of internal/netguard/netguard.go that allows two failures in a minute.
use xsync.Prelude.{ℕ, ◌≡◌, ◌==◌, ◌||◌, ltb, refl, true, false, [], ◌∷◌, List, arith}
use xsync.Prelude.Bytes.{Bytes, codes, bytes_eq, bytes_lt}
use xsync.Prelude.Assoc.{lookup, insert, remove}
use xsync.Netguard.AuthLimiter.{Call, asks, fails_to, allow, answer_all, new_auth_limiter, recent}
use xsync.Netguard.AuthLimiter.Throttling.{failures_within_minute, allow-refines}

abbrev x : Bytes
x = codes "x"

-- The first failure is too old at the end.
abbrev calls : List (Call × ℕ)
calls =
    (fails_to x, 1)
    ∷ (asks x, 2)
    ∷ (fails_to (codes "y"), 3)
    ∷ (fails_to x, 40000000000)
    ∷ (asks x, 41000000000)
    ∷ []

x_refused : (allow (answer_all (new_auth_limiter 2) calls) x 42000000000).1 ≡ false
unfolding allow answer_all new_auth_limiter lookup insert remove bytes_eq bytes_lt recent
x_refused = refl

x_forgiven : (allow (answer_all (new_auth_limiter 2) calls) x 61000000000).1 ≡ true
unfolding allow answer_all new_auth_limiter lookup insert remove bytes_eq bytes_lt recent
x_forgiven = refl

allow-refines_example :
    (allow (answer_all (new_auth_limiter 2) calls) x 61000000000).1
    ≡ (2 == 0) || ltb (failures_within_minute x 61000000000 calls) 2
allow-refines_example =
    allow-refines 2 calls x 61000000000
      (omega arith, (omega arith, (omega arith, (omega arith, (omega arith, (omega arith, tt))))))
