-- ===== src/Store/Recover/Recovered.antt =====
-- `Recover` of internal/store/maintain.go, upload by upload.
use xsync.Prelude.{◌≡◌, false, Option, none, some, List, if◌then◌else◌}
use mathlib.Core.List.Memᴰ
use mathlib.Core.List.{Memᴰ}
use xsync.Prelude.Bytes.{Bytes, bytes_eq}
use xsync.Prelude.Assoc.{Assoc}
use xsync.Bolt.{Bolt}
use xsync.Model.{State, Upload}
use xsync.Store.Error.{Error, Result}
use xsync.Store.Keys.{Instant}
use xsync.Store.Tx.{Tx}
use xsync.Store.Policy.{Policy}
use xsync.Store.Delivery.{state_eq}
use xsync.Store.Counters.{recount}
use xsync.Store.Run.{update}
use xsync.Store.Handle.{Os, Session}
use xsync.Store.Recover.{restarted, recover_tx, recover_finalizing, recover_each}
use xsync.Store.Recover.Settling.{IsAtRest, uploads_of}

-- No upload of the list has the id.
abbrev pub Misses : Bytes → List Upload → Type 0
Misses id us = (u : Upload) → Memᴰ u us → bytes_eq u.id id ≡ false

module _ ⦃bolt : Bolt⦄ where
  open bolt use {Bucket, get, put, entries, ascending, get_entries}

  module _ (root : Bytes) (text : Error → Bytes) (sha : Bytes → Bytes) (policy : Bytes → Policy)
      (turn : Bytes → Option Os) where
    each : List Upload → Session → Session × Result (Unit {0})
    unfolding recover_each
    each = recover_each root text sha policy turn

    abbrev once : Os → Upload → Session → Session
    once os u s = (recover_finalizing root text sha policy os u s).0

    -- The upload with an id.
    abbrev at : Session × Result (Unit {0}) → Bytes → Option Upload
    at x id = get (uploads_of x.0) id

  -- The uploads stand under their own ids.
  abbrev pub IsKeyed : Session → Type 0
  IsKeyed s = (id : Bytes) (u : Upload) → get (uploads_of s) id ≡ some u → u.id ≡ id

  -- From an upload of the catalog to what became of it.
  abbrev pub Recovered : Instant → Option Upload → Option Upload → Type 0
  Recovered now none after = after ≡ none
  Recovered now (some u) after =
      if state_eq u.state State.uploading
      then after ≡ some (restarted now u)
      else if state_eq u.state State.finalizing
      then IsAtRest after
      else after ≡ some u

  -- The session after the first transaction and the count.
  counted : Instant → Session → Session
  unfolding update recover_tx
  counted now s = record s {
    store =
        let store = (update s.store (recover_tx now)).0 in
        record store { count = recount store.db };
  }
