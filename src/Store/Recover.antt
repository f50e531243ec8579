-- ===== src/Store/Recover.antt =====
-- `Recover` and `recoverFinalizing` of internal/store/maintain.go, for the time after a crash. The
-- session's handle takes no part. What the recovery of an upload meets is a function of its id,
-- which gives nothing once the context is done. `sweepGC` is left out.
mod Uploads
pub mod Settling
pub mod Recovered
pub mod Finishing
mod Examples
use xsync.Prelude.{◌&&◌, Option, none, some, List, [], ◌∷◌, if◌then◌else◌, length}
use xsync.Prelude.Bytes.{Bytes, codes}
use xsync.Prelude.Assoc.{Assoc}
use xsync.Bolt.{Bolt}
use xsync.Model.{State, Upload}
use xsync.Store.Error.{Error, Result, ok, err}
use xsync.Store.Keys.{Instant, time_id_key}
use xsync.Store.Tx.{Tx}
use xsync.Store.Counters.{recount}
use xsync.Store.Delete.{is_some}
use xsync.Store.Delivery.{state_eq}
use xsync.Store.Policy.{Policy}
use xsync.Store.Run.{Store, update}
use xsync.Store.Handle.{Os, Session, blob_path}
use xsync.Store.Handle.Closing.{fail_upload, publish_update, finalize}

-- The uploads in a state, as ForEach meets them.
unfoldable pub in_state : State → Assoc Upload → List Upload
unfolding state_eq
in_state state [] = []
in_state state ((k, u) ∷ rest) =
    let more = in_state state rest in if state_eq u.state state then u ∷ more else more

unfoldable pub restarted : Instant → Upload → Upload
restarted now u = record u {
  state = State.interrupted;
  updated_at = now;
  error = codes "server restarted during upload";
}

module _ ⦃bolt : Bolt⦄ where
  open bolt use {Bucket, put, entries}

  unfoldable pub interrupt_all : Instant → Tx Bucket → List Upload → Tx Bucket
  unfolding restarted
  interrupt_all now tx [] = tx
  interrupt_all now tx (u ∷ us) =
      interrupt_all now
        (record tx {
          db = record tx.db {
            uploads = put tx.uploads u.id (restarted now u);
            stale = put tx.stale (time_id_key now u.id) tt;
          };
        })
        us

  -- The write transaction, with the uploads that were being published.
  unfoldable pub recover_tx : Instant → Tx Bucket → Result (Tx Bucket × List Upload)
  unfolding in_state interrupt_all
  recover_tx now tx = ok (
    interrupt_all now tx (in_state State.uploading (entries tx.uploads)),
    in_state State.finalizing (entries tx.uploads),
  )

  module _ (root : Bytes) (text : Error → Bytes) (sha : Bytes → Bytes)
      (policy : Bytes → Policy) where
    -- The blob is in place already, if it is anywhere.
    unfoldable pub publish_moved : Os → Upload → Session → Session × Result (Unit {0})
    unfolding blob_path fail_upload publish_update
    publish_moved os u s = elim (s.disk (blob_path root u.tenant u.id)) [
      | none ↦ fail_upload root text sha policy os u Error.other s
      | some content ↦
          if os.hash_ok
          then (let (s', r) =
                publish_update (policy u.tenant) os u (blob_path root u.tenant u.id) (sha content)
                  (length content) none s in
              elim r [ err e ↦ fail_upload root text sha policy os u e s' | ok _ ↦ (s', ok tt) ])
          else fail_upload root text sha policy os u Error.other s
    ]

    unfoldable pub recover_finalizing : Os → Upload → Session → Session × Result (Unit {0})
    unfolding finalize publish_moved
    recover_finalizing os u s =
        if os.stat_ok && is_some (s.disk u.staging_path)
        then finalize root text sha policy os u none none s
        else publish_moved os u s

    -- An upload that cannot be recovered does not stop the others.
    unfoldable pub recover_each :
        (Bytes → Option Os) → List Upload → Session → Session × Result (Unit {0})
    unfolding recover_finalizing
    recover_each turn [] s = (s, ok tt)
    recover_each turn (u ∷ us) s = elim (turn u.id) [
      | none ↦ (s, err Error.other)
      | some os ↦ recover_each turn us (recover_finalizing os u s).0
    ]

    unfoldable pub recover : Instant → (Bytes → Option Os) → Session → Session × Result (Unit {0})
    unfolding update recover_tx recount recover_each
    recover now turn s =
        let (store, r) = update s.store (recover_tx now) in
        elim r [
          | err e ↦ (record s { store = store }, err e)
          | ok finalizing ↦
              recover_each turn finalizing
                (record s { store = record store { count = recount store.db } })
        ]
