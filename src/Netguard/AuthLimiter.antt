-- ===== src/Netguard/AuthLimiter.antt =====
-- `AuthLimiter` of internal/netguard/netguard.go. A budget that is not positive is none. The limiter
-- of a nil pointer, which allows everything, is left out.
pub mod Throttling
mod Examples
use xsync.Prelude.{
  ℕ, suc, ◌+◌, ◌%◌, ◌^◌, Bool, true, false, Option, none, some, List, [], ◌∷◌, ◌++◌, ◌==◌, ltb, leb,
  length, if◌then◌else◌,
}
use xsync.Prelude.Bytes.{Bytes}
use xsync.Prelude.Assoc.{Assoc, lookup, insert, remove}

pub record AuthLimiter : Type 0 where
  pub budget : ℕ
  pub window : ℕ
  pub fails : Assoc (List ℕ)
  pub blocked : ℕ
  pub failures : ℕ

-- A minute is in nanoseconds.
unfoldable pub new_auth_limiter : ℕ → AuthLimiter
new_auth_limiter per_minute = record {
  budget = per_minute;
  window = 60000000000;
  fails = [];
  blocked = 0;
  failures = 0;
}

-- A missing key has no failures.
unfoldable pub fails_of : Assoc (List ℕ) → Bytes → List ℕ
fails_of m ip = elim (lookup ip m) [ none ↦ [] | some l ↦ l ]

-- now.Sub(t) < window
unfoldable pub recent : ℕ → ℕ → List ℕ → List ℕ
recent window now [] = []
recent window now (t ∷ l) =
    let rest = recent window now l in if ltb now (t + window) then t ∷ rest else rest

unfoldable pub prune : AuthLimiter → Bytes → ℕ → AuthLimiter × List ℕ
unfolding fails_of recent
prune a ip now = elim (recent a.window now (fails_of a.fails ip)) [
  | [] ↦ (record a { fails = remove ip a.fails }, [])
  | t ∷ l ↦ (record a { fails = insert ip (t ∷ l) a.fails }, t ∷ l)
]

unfoldable pub allow : AuthLimiter → Bytes → ℕ → AuthLimiter × Bool
unfolding prune
allow a ip now =
    if a.budget == 0
    then (a, true)
    else let (a', l) = prune a ip now in
      if leb a.budget (length l)
      then (record a' { blocked = (a'.blocked + 1) % 2 ^ 64 }, false)
      else (a', true)

-- for k := range a.fails { a.prune(k, now) }
unfoldable pub prune_all : AuthLimiter → ℕ → Assoc (List ℕ) → AuthLimiter
unfolding prune
prune_all a now [] = a
prune_all a now ((ip, l) ∷ m) = prune_all (prune a ip now).0 now m

unfoldable pub fail : AuthLimiter → Bytes → ℕ → AuthLimiter
unfolding prune prune_all
fail a ip now =
    let counted : AuthLimiter = record a { failures = (a.failures + 1) % 2 ^ 64 } in
    if a.budget == 0
    then counted
    else let (a', l) = prune counted ip now in
      let added : AuthLimiter = record a' { fails = insert ip (l ++ now ∷ []) a'.fails } in
      if ltb 100000 (length added.fails) then prune_all added now added.fails else added

-- A call of `Allow` or `Fail`.
pub data Call : Type 0 where
  asks fails_to : Bytes → Call

unfoldable pub answer : AuthLimiter → Call × ℕ → AuthLimiter
unfolding allow fail
answer a (asks ip, now) = (allow a ip now).0
answer a (fails_to ip, now) = fail a ip now

unfoldable pub answer_all : AuthLimiter → List (Call × ℕ) → AuthLimiter
unfolding answer
answer_all a [] = a
answer_all a (c ∷ cs) = answer_all (answer a c) cs
