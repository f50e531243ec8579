-- ===== src/Netguard/Listener/Examples.antt =====
-- A listener of internal/netguard/netguard.go with two addresses.
use xsync.Prelude.{◌≡◌, refl, true, false, some, [], ◌∷◌, List}
use xsync.Prelude.Bytes.{Bytes, codes, bytes_eq, bytes_lt}
use xsync.Prelude.Int.{pos, ◌+ℤ◌, ◌-ℤ◌}
use xsync.Prelude.Assoc.{lookup, insert, remove}
use xsync.Netguard.Listener.{Limits, Conn, Event, arrive, hang_up, serve_all, new_listener}
use xsync.Netguard.Listener.Connections.{
  IsWithin, fresh, open_conns, open_from, slot, serve_all-IsWithin,
}

abbrev limits : Limits
limits = record { max_conns = 2; max_conns_per_ip = 1 }

-- The second peer of an address is refused. The first hangs up twice, and there is room again.
abbrev events : List Event
events =
    arrive (some (codes "x") ∷ [])
    ∷ arrive (some (codes "x") ∷ some (codes "y") ∷ [])
    ∷ hang_up 1
    ∷ hang_up 1
    ∷ arrive (some (codes "x") ∷ [])
    ∷ []

abbrev served_conns : List Conn
served_conns =
    record { ip = codes "x"; done = false }
    ∷ record { ip = codes "y"; done = false }
    ∷ record { ip = codes "x"; done = true }
    ∷ []

events_serve :
    ((serve_all events (fresh limits)).conns ≡ served_conns)
    × ((serve_all events (fresh limits)).listener.rejected ≡ 1)
unfolding serve_all new_listener lookup insert remove bytes_eq bytes_lt ◌+ℤ◌ ◌-ℤ◌
events_serve = (refl, refl)

serve_all-IsWithin_example :
    IsWithin limits (serve_all events (fresh limits)).conns
    × ((serve_all events (fresh limits)).listener.total
        ≡ pos (open_conns (serve_all events (fresh limits)).conns))
    × ((ip : Bytes)
        → lookup ip (serve_all events (fresh limits)).listener.per_ip
          ≡ slot (open_from ip (serve_all events (fresh limits)).conns))
serve_all-IsWithin_example = serve_all-IsWithin limits events
