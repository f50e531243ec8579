-- ===== src/Netguard/Listener.antt =====
-- The connection limits of `Listener` in internal/netguard/netguard.go. A limit that is not positive
-- is none, so limits are natural numbers. A peer's address is what `hostOf` makes of it; deadlines
-- are left out. `mu` serialises `admit` and `leave`.
pub mod Connections
mod Examples
use xsync.Prelude.{
  ℕ, zero, suc, ◌+◌, ◌%◌, ◌^◌, Bool, true, false, ◌&&◌, Option, none, some, List, [], ◌∷◌, ltb, leb,
  if◌then◌else◌,
}
use xsync.Prelude.Bytes.{Bytes}
use xsync.Prelude.Int.{ℤ, pos, negsuc, ◌+ℤ◌, ◌-ℤ◌}
use xsync.Prelude.Assoc.{Assoc, lookup, insert, remove}

pub record Limits : Type 0 where
  pub max_conns : ℕ
  pub max_conns_per_ip : ℕ

pub record Listener : Type 0 where
  pub limits : Limits
  pub total : ℤ
  pub per_ip : Assoc ℤ
  pub rejected : ℕ

unfoldable pub new_listener : Limits → Listener
new_listener limits = record { limits = limits; total = pos 0; per_ip = []; rejected = 0 }

-- n <= z
unfoldable pub at_least : ℕ → ℤ → Bool
at_least n (pos z) = leb n z
at_least n (negsuc z) = false

-- A missing key has the zero value.
unfoldable pub count_of : Assoc ℤ → Bytes → ℤ
count_of m ip = elim (lookup ip m) [ none ↦ pos 0 | some n ↦ n ]

unfoldable pub admit : Listener → Bytes → Listener × Bool
unfolding at_least count_of
admit l ip =
    if ltb 0 l.limits.max_conns && at_least l.limits.max_conns l.total
    then (l, false)
    else if ltb 0 l.limits.max_conns_per_ip
        && at_least l.limits.max_conns_per_ip (count_of l.per_ip ip)
    then (l, false)
    else (
      record l {
        per_ip = insert ip (count_of l.per_ip ip +ℤ pos 1) l.per_ip;
        total = l.total +ℤ pos 1;
      },
      true,
    )

unfoldable pub leave : Listener → Bytes → Listener
unfolding at_least count_of
leave l ip =
    let n = count_of l.per_ip ip -ℤ pos 1 in
    record l {
      per_ip = if at_least 1 n then insert ip n l.per_ip else remove ip l.per_ip;
      total = l.total -ℤ pos 1;
    }

-- A guarded connection, and whether its `once` has run.
pub record Conn : Type 0 where
  pub ip : Bytes
  pub done : Bool

-- What `Accept` returns: a connection, the error of the inner listener, or nothing yet.
pub data Accepted : Type 0 where
  accepted : Conn → Accepted
  broken waiting : Accepted

-- `Accept` on what the inner listener will bring: peers, or an error. A peer too many is closed and
-- the loop goes on. Also what is still to come.
unfoldable pub accept : Listener → List (Option Bytes) → Listener × Accepted × List (Option Bytes)
unfolding admit
accept l [] = (l, waiting, [])
accept l (none ∷ peers) = (l, broken, peers)
accept l (some ip ∷ peers) =
    let (l', admitted) = admit l ip in
    let rest = accept (record l' { rejected = (l'.rejected + 1) % 2 ^ 64 }) peers in
    if admitted then (l', accepted (record { ip = ip; done = false }), peers) else rest

-- `Close` of a connection, as often as it is called.
unfoldable pub close_conn : Listener → Conn → Listener × Conn
unfolding leave
close_conn l c = if c.done then (l, c) else (leave l c.ip, record c { done = true })

-- A listener with the connections that it has accepted.
pub record Served : Type 0 where
  pub listener : Listener
  pub conns : List Conn

pub data Event : Type 0 where
  -- A call of `Accept`, and what comes until it returns.
  arrive : List (Option Bytes) → Event
  -- A call of `Close` on the connection with that number.
  hang_up : ℕ → Event

unfoldable pub close_at : Listener → ℕ → List Conn → Listener × List Conn
unfolding close_conn
close_at l n [] = (l, [])
close_at l zero (c ∷ cs) = let (l', c') = close_conn l c in (l', c' ∷ cs)
close_at l (suc n) (c ∷ cs) = let (l', cs') = close_at l n cs in (l', c ∷ cs')

unfoldable pub join : Accepted → List Conn → List Conn
join (accepted c) cs = c ∷ cs
join _ cs = cs

unfoldable pub serve : Event → Served → Served
unfolding accept close_at join
serve (arrive peers) s =
    let (l, a, rest) = accept s.listener peers in record { listener = l; conns = join a s.conns }
serve (hang_up n) s =
    let (l, cs) = close_at s.listener n s.conns in record { listener = l; conns = cs }

unfoldable pub serve_all : List Event → Served → Served
unfolding serve
serve_all [] s = s
serve_all (e ∷ es) s = serve_all es (serve e s)
