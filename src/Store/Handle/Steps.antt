-- ===== src/Store/Handle/Steps.antt =====
-- The life of an upload handle of internal/store/upload.go: how it was opened, the calls of its
-- protocol, and what other users of the store do in between.
use xsync.Prelude.{ℕ, ◌≡◌, Bool, none, if◌then◌else◌, ltb}
use xsync.Prelude.Bytes.{Bytes, take}
use xsync.Prelude.Int.{ℤ, pos}
use xsync.Bolt.{Bolt}
use xsync.Upload.Coverage.{end}
use xsync.Upload.Tracking.{Sparse, sparse_write}
use xsync.Store.Error.{Error, ok}
use xsync.Store.Policy.{Policy}
use xsync.Store.Publish.{ObjectMeta}
use xsync.Store.Run.{Store}
use xsync.Store.Handle.{OpenMode, Disk, Os, Session}
use xsync.Store.Handle.Open.{open_upload}
use xsync.Store.Handle.Writing.{
  is_appending, append_offset, resolved_at, handle_write_at, append_write, truncate_handle,
  transfer_error, fail_handle, set_object_meta,
}

pub data Call : Type 0 where
  write : Bytes → ℤ → Call
  append : Bytes → Call
  truncate : ℤ → Call
  break_off fail : Error → Call
  describe : ObjectMeta → Call

module _ ⦃bolt : Bolt⦄ (root : Bytes) (text : Error → Bytes) where
  unfoldable pub perform_call : Os → Call → Session → Session
  unfolding handle_write_at append_write truncate_handle transfer_error fail_handle set_object_meta
  perform_call os (write p off) s = (handle_write_at root text os p off s).0
  perform_call os (append p) s = (append_write root text os p s).0
  perform_call os (truncate size) s = (truncate_handle root text os size s).0
  perform_call os (break_off e) s = transfer_error e s
  perform_call os (fail e) s = fail_handle e s
  perform_call os (describe m) s = set_object_meta m s

  -- Where `writeLocked` puts the bytes for the offset `n`: an append after the base that the handle
  -- continues, for a client that counts from there.
  abbrev pub effective : Os → ℕ → Bool → Session → ℕ
  effective os n translate s =
      if translate then (append_offset (resolved_at root text os n s).0.h n).1 else n

  -- What a client knows of its file after a call, if it knew the bytes of `f`: as many of the bytes
  -- that it passed as the call has reported written are where it put them, and nothing stands at or
  -- behind the size of a truncation.
  unfoldable pub known : Os → Call → Session → Sparse → Sparse
  unfolding handle_write_at append_write
  known os (write p (pos n)) s f =
      sparse_write f (take (handle_write_at root text os p (pos n) s).1 p)
        (effective os n (is_appending s.h.mode) s)
  known os (append p) s f =
      sparse_write f (take (append_write root text os p s).1 p)
        (if s.h.resolved then end s.h.cov else 0)
  known os (truncate (pos size)) s f = λ x. if ltb x size then f x else none
  known os _ s f = f

  -- A handle in use, with the bytes that its client wrote last and has not cut off.
  -- Others change the store and the disk, but for the file that this handle writes.
  pub data Live : Session → Sparse → Type 0 where
    opened :
        (os : Os) (draining : Bool) (pol : Policy) (store : Store) (disk : Disk) (inflight : ℤ)
        (tenant name protocol : Bytes) (mode : OpenMode) (internal : Bool) (s : Session)
        → open_upload root text os draining pol store disk inflight tenant name protocol mode
            internal
          ≡ ok (s, ok tt)
        → Live s (λ x. none)
    called :
        (os : Os) (c : Call) (s : Session) (f : Sparse)
        → Live s f
        → Live (perform_call os c s) (known os c s f)
    elsewhere :
        (s : Session) (f : Sparse) (store : Store) (disk : Disk) (inflight : ℤ)
        → disk s.h.upload.staging_path ≡ s.disk s.h.upload.staging_path
        → Live s f
        → Live (record s { store = store; disk = disk; inflight = inflight }) f
