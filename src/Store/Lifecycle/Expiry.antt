-- ===== src/Store/Lifecycle/Expiry.antt =====
-- The end of a lease in `ExpireLeases` of internal/store/maintain.go.
use xsync.Prelude.Bytes.{Bytes}
use xsync.Bolt.{Bolt}
use xsync.Model.{ObjectVersion}
use xsync.Store.Keys.{time_id_key}
use xsync.Store.Tx.{Tx}
use xsync.Store.Policy.{Policy}

module _ ⦃bolt : Bolt⦄ where
  open bolt use {Bucket, get, delete, sequence}

  unleased : Tx Bucket → ObjectVersion → Tx Bucket
  unleased tx o = record tx {
    db = record tx.db { leases = delete tx.leases (time_id_key o.lease_until o.id) };
  }
