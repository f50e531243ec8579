-- ===== src/Store/Counters.antt =====
-- `Stats`, `counters` and its `apply` of internal/store/store.go, and `recount` of
-- internal/store/schema.go. The walks over Go maps are additions, whose order does not matter.
use xsync.Prelude.{[], ◌∷◌, length}
use xsync.Prelude.Int.{ℤ, pos, ◌+ℤ◌}
use xsync.Prelude.Assoc.{Assoc, insert}
use xsync.Bolt.{Bolt}
use xsync.Model.{ObjectVersion}
use xsync.Store.Tx.{Db, Delta, TenantStats, bump, stats_of}

pub record Stats : Type 0 where
  pub objects : ℤ
  pub ready : ℤ
  pub leased : ℤ
  pub held : ℤ
  pub parked : ℤ
  pub delete_pending : ℤ
  pub uploads : ℤ
  pub claims : ℤ
  pub bytes : ℤ

pub record Counters : Type 0 where
  pub s : Stats
  pub tenants : Assoc TenantStats

abbrev pub zero_stats : Stats
zero_stats = record {
  objects = pos 0;
  ready = pos 0;
  leased = pos 0;
  held = pos 0;
  parked = pos 0;
  delete_pending = pos 0;
  uploads = pos 0;
  claims = pos 0;
  bytes = pos 0;
}

-- t.Objects += td.Objects and so on
unfoldable pub add_tenant : TenantStats → TenantStats → TenantStats
add_tenant t td = record {
  objects = t.objects +ℤ td.objects;
  ready = t.ready +ℤ td.ready;
  leased = t.leased +ℤ td.leased;
  held = t.held +ℤ td.held;
  parked = t.parked +ℤ td.parked;
  bytes = t.bytes +ℤ td.bytes;
}

unfoldable pub add_totals : Stats → TenantStats → Stats
add_totals s td = record s {
  objects = s.objects +ℤ td.objects;
  ready = s.ready +ℤ td.ready;
  leased = s.leased +ℤ td.leased;
  held = s.held +ℤ td.held;
  parked = s.parked +ℤ td.parked;
  bytes = s.bytes +ℤ td.bytes;
}

unfoldable pub apply_tenants : Counters → Assoc TenantStats → Counters
unfolding add_tenant add_totals stats_of
apply_tenants c [] = c
apply_tenants c ((id, td) ∷ rest) =
    apply_tenants
      (record {
        s = add_totals c.s td;
        tenants = insert id (add_tenant (stats_of c.tenants id) td) c.tenants;
      })
      rest

unfoldable pub apply : Counters → Delta → Counters
unfolding apply_tenants
apply c d =
    apply_tenants
      (record c {
        s = record c.s {
          uploads = c.s.uploads +ℤ d.uploads;
          claims = c.s.claims +ℤ d.claims;
          delete_pending = c.s.delete_pending +ℤ d.gc;
        };
      })
      d.tenants

-- One object of the scan.
unfoldable pub count_object : Assoc TenantStats → ObjectVersion → Assoc TenantStats
unfolding bump stats_of
count_object m o =
    let t = stats_of m o.tenant in
    insert o.tenant
      (bump (record t { objects = t.objects +ℤ pos 1; bytes = t.bytes +ℤ pos o.size }) o.state
        (pos 1))
      m

unfoldable pub count_objects : Assoc TenantStats → Assoc ObjectVersion → Assoc TenantStats
unfolding count_object
count_objects m [] = m
count_objects m ((k, o) ∷ rest) = count_objects (count_object m o) rest

unfoldable pub total : Stats → Assoc TenantStats → Stats
unfolding add_totals
total s [] = s
total s ((id, t) ∷ rest) = total (add_totals s t) rest

module _ ⦃bolt : Bolt⦄ where
  open bolt use {Bucket, entries}

  unfoldable pub recount : Db Bucket → Counters
  unfolding count_objects total
  recount db =
      let tenants = count_objects [] (entries db.objects) in
      record {
        s =
            total
              (record zero_stats {
                uploads = pos (length (entries db.uploads));
                claims = pos (length (entries db.claims));
                delete_pending = pos (length (entries db.gc));
              })
              tenants;
        tenants = tenants;
      }
