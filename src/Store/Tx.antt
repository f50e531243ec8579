-- ===== src/Store/Tx.antt =====
-- The buckets of internal/store/schema.go, and a write transaction with its counter delta.
use xsync.Prelude.{ℕ, Bool, true, Option, none, some, []}
use xsync.Prelude.Bytes.{Bytes}
use xsync.Prelude.Int.{ℤ, pos, ◌+ℤ◌, ◌-ℤ◌}
use xsync.Prelude.Assoc.{Assoc, lookup, insert}
use xsync.Model.{State, Upload, ObjectVersion, Claim, Tombstone, Entry}

pub record GcEntry : Type 0 where
  pub tenant : Bytes
  pub blob : Bytes
  pub size : ℕ

-- The catalog, over a family of buckets.
pub record Db (B : Type 0 → Type 0) : Type 0 where
  pub meta : B Bytes
  pub objects : B ObjectVersion
  pub namespace : B Bytes
  pub uploads : B Upload
  pub claims : B Claim
  pub tombstones : B Tombstone
  pub gc : B GcEntry
  pub versions : B (Unit {0})
  pub directories : B Entry
  pub queue : B Bytes
  pub queue_seg : B Bytes
  pub leases : B Bytes
  pub upload_paths : B (Unit {0})
  pub stale : B (Unit {0})
  pub held : B (Unit {0})
  pub parked : B (Unit {0})
  pub tomb_times : B (Unit {0})

pub record TenantStats : Type 0 where
  pub objects : ℤ
  pub ready : ℤ
  pub leased : ℤ
  pub held : ℤ
  pub parked : ℤ
  pub bytes : ℤ

abbrev pub no_stats : TenantStats
no_stats = record {
  objects = pos 0;
  ready = pos 0;
  leased = pos 0;
  held = pos 0;
  parked = pos 0;
  bytes = pos 0;
}

pub record Delta : Type 0 where
  pub uploads : ℤ
  pub claims : ℤ
  pub gc : ℤ
  pub tenants : Assoc TenantStats
  -- the tenants whose queue gained work
  pub touched : Assoc Bool

abbrev pub no_delta : Delta
no_delta = record { uploads = pos 0; claims = pos 0; gc = pos 0; tenants = []; touched = [] }

-- What the closure of an `update` works on: tx and d.
pub record Tx (B : Type 0 → Type 0) : Type 0 where
  pub db : Db B
  pub open db use *
  pub delta : Delta

unfoldable pub wake : Delta → Bytes → Delta
wake d tenant = record d { touched = insert tenant true d.touched }

unfoldable pub bump : TenantStats → State → ℤ → TenantStats
bump t State.ready n = record t { ready = t.ready +ℤ n }
bump t State.leased n = record t { leased = t.leased +ℤ n }
bump t State.held n = record t { held = t.held +ℤ n }
bump t State.parked n = record t { parked = t.parked +ℤ n }
bump t _ n = t

-- The object leaves `from`; `none` means that it is being created.
unfoldable pub move_from : TenantStats → ObjectVersion → Option State → TenantStats
unfolding bump
move_from t o none = record t { objects = t.objects +ℤ pos 1; bytes = t.bytes +ℤ pos o.size }
move_from t o (some st) = bump t st (pos 0 -ℤ pos 1)

-- It enters `to`; `none` means that it is being removed.
unfoldable pub move_to : TenantStats → ObjectVersion → Option State → TenantStats
unfolding bump
move_to t o none = record t { objects = t.objects -ℤ pos 1; bytes = t.bytes -ℤ pos o.size }
move_to t o (some st) = bump t st (pos 1)

-- The zero value for a tenant that is not there.
unfoldable pub stats_of : Assoc TenantStats → Bytes → TenantStats
stats_of m tenant = elim (lookup tenant m) [ none ↦ no_stats | some t ↦ t ]

wake_if_ready : Delta → Bytes → Option State → Delta
unfolding wake
wake_if_ready d tenant (some State.ready) = wake d tenant
wake_if_ready d tenant _ = d

unfoldable pub move : Delta → ObjectVersion → Option State → Option State → Delta
unfolding move_from move_to stats_of wake_if_ready
move d o from to =
    let t = move_to (move_from (stats_of d.tenants o.tenant) o from) o to in
    wake_if_ready (record d { tenants = insert o.tenant t d.tenants }) o.tenant to
