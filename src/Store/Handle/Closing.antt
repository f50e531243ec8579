-- ===== src/Store/Handle/Closing.antt =====
-- How an upload ends in internal/store/upload.go: `settle` with `copyPrefix`, `Close`,
-- `interruptHandle`, `discard`, `fail` and `finalize`. A removal of a file does not fail. The blob
-- that a publication replaces is unlinked afterwards, which is left out.
use xsync.Prelude.{
  ℕ, Bool, true, false, not, ◌&&◌, Option, none, some, List, [], ◌∷◌, ◌==◌, ltb, length,
  if◌then◌else◌,
}
use xsync.Prelude.Bytes.{Bytes, take}
use xsync.Prelude.Int.{pos, ◌-ℤ◌}
use xsync.Bolt.{Bolt}
use xsync.Model.{State, Upload}
use xsync.Upload.Coverage.{add, start, contiguous, covers}
use xsync.Upload.Hasher.{StreamHasher, result}
use xsync.Upload.File.{write_at, cut_to}
use xsync.Store.Error.{Error, Result, ok, err}
use xsync.Store.Delete.{is_some}
use xsync.Store.Policy.{Policy}
use xsync.Store.Publish.{ObjectMeta, publish_tx}
use xsync.Store.Run.{update}
use xsync.Store.Handle.{
  UploadHandle, Base, source, Os, Session, Disk, put_file, remove_file, sent, find_exact,
  find_larger, first_some, blob_path, mark_upload, start_fresh,
}

unfoldable pub is_incomplete : Error → Bool
is_incomplete Error.incomplete = true
is_incomplete _ = false

-- `releaseResources` and `defer`, on every way out.
unfoldable pub let_go : UploadHandle → UploadHandle
let_go h = record h { release = false; reserved = false }

-- The digest of the bytes that were hashed on the way, if the hasher saw all of the file.
unfoldable pub precomputed : Option StreamHasher → ℕ → ℕ → Option Bytes
precomputed none base_size size = none
precomputed (some t) base_size size = if base_size == 0 then result t size else none

-- io.Copy of a section to offset 0.
unfoldable pub write_prefix : Bytes → Bytes → Bytes
write_prefix content [] = content
write_prefix content (c ∷ p) = write_at content (c ∷ p) 0

unfoldable pub is_empty {ℓ} : {A : Type ℓ} → List A → Bool
is_empty [] = true
is_empty (x ∷ xs) = false

module _ ⦃bolt : Bolt⦄ where
  open bolt use {Bucket, put}

  -- From the open file `name`, which has `content`.
  unfoldable pub copy_prefix : Os → Base → ℕ → Bytes → Bytes → Session → Session × Result (Unit {0})
  unfolding put_file sent write_prefix
  copy_prefix os b n name content s = elim (s.disk (source b)) [
    | none ↦ (s, err Error.other)
    | some inherited ↦
        let s' : Session = record s {
          disk = put_file s.disk name (write_prefix content (sent os.copied (take n inherited)));
        } in
        if not os.open_ok
        then (s, err Error.other)
        else if is_some os.copied
        then (s', err Error.other)
        else (record s' { h = record s.h { cov = add s.h.cov 0 n; hasher = none } }, ok tt)
  ]

  -- Writes that began past offset 0 get their prefix from a candidate.
  unfoldable pub fill : Os → Bytes → Bytes → Session → Session × Result (Unit {0})
  unfolding copy_prefix first_some find_exact find_larger start
  fill os name content s =
      let first = start s.h.cov in
      if s.h.fill_prefix && ltb 0 first
      then elim (first_some (find_exact s.h.candidates first) (find_larger s.h.candidates first)) [
        | none ↦ (s, err Error.invalid_offset)
        | some b ↦ copy_prefix os b first name content s
      ]
      else (s, ok tt)

  -- No gaps are left.
  unfoldable pub check_gaps : Os → Bytes → Session → Result (Unit {0})
  unfolding covers
  check_gaps os name s = elim (s.disk name) [
    | none ↦ err Error.other
    | some content ↦
        if not os.stat_ok
        then err Error.other
        else if covers s.h.cov (length content)
        then ok tt
        else err Error.incomplete
  ]

  unfoldable pub settle : Os → Session → Session × Result (Unit {0})
  unfolding fill check_gaps
  settle os s = elim s.h.file [
    | none ↦ (s, err Error.other)
    | some name ↦ elim (s.disk name) [
      | none ↦ (s, err Error.other)
      | some content ↦
          let (s', r) = fill os name content s in
          elim r [ err e ↦ (s', err e) | ok _ ↦ (s', check_gaps os name s') ]
    ]
  ]

  -- The staging file is cut back to its longest gap-free prefix and parked.
  unfoldable pub interrupt_handle :
      (Error → Bytes) → Os → Error → Session → Session × Result (Unit {0})
  unfolding put_file mark_upload contiguous
  interrupt_handle text os cause s =
      let cut : Disk = elim s.h.file [
        | none ↦ s.disk
        | some name ↦ elim (s.disk name) [
          | none ↦ s.disk
          | some content ↦
              if os.truncate_ok
              then put_file s.disk name (cut_to content (contiguous s.h.cov))
              else s.disk
        ]
      ] in
      let parked : Session = record s { disk = cut; h = record s.h { file = none } } in
      (mark_upload os s.h.upload State.interrupted (text cause) parked, err cause)

  unfoldable pub publish_update :
      Policy
      → Os
      → Upload
      → Bytes
      → Bytes
      → ℕ
      → Option ObjectMeta
      → Session
      → Session × Result (Unit {0})
  publish_update pol os u blob digest size meta s =
      let (store, r) = update s.store (λ tx. publish_tx pol os.now tx u blob digest size meta) in
      (record s { store = store }, elim r [ err e ↦ err e | ok _ ↦ ok tt ])

  -- s.update(putJSON(uploads, u.ID, u))
  unfoldable pub put_upload : Upload → Session → Session
  put_upload u s = record s {
    store =
        (update {A = Unit {0}} s.store
          (λ tx. ok (record tx { db = record tx.db { uploads = put tx.uploads u.id u } }, tt))).0;
  }

  -- `sha` is the hexadecimal SHA-256 of a text.
  module _ (root : Bytes) (text : Error → Bytes) (sha : Bytes → Bytes)
      (policy : Bytes → Policy) where
    -- The data goes; `cause` is why.
    unfoldable pub fail_upload : Os → Upload → Error → Session → Session × Result (Unit {0})
    unfolding mark_upload remove_file blob_path
    fail_upload os u cause s =
        let removed : Session = record s {
          disk = remove_file (remove_file s.disk u.staging_path) (blob_path root u.tenant u.id);
        } in
        (mark_upload os u State.failed (text cause) removed, err cause)

    unfoldable pub move_and_publish :
        Os → Upload → Bytes → Bytes → ℕ → Option ObjectMeta → Session → Session × Result (Unit {0})
    unfolding put_file remove_file blob_path publish_update fail_upload
    move_and_publish os u content digest size meta s =
        let blob = blob_path root u.tenant u.id in
        let moved : Session = record s {
          disk = put_file (remove_file s.disk u.staging_path) blob content;
        } in
        if not (os.mkdir_ok && os.rename_ok)
        then fail_upload os u Error.other s
        else if not os.sync_dir_ok
        then fail_upload os u Error.other moved
        else let (s', r) = publish_update (policy u.tenant) os u blob digest size meta moved in
          elim r [ err e ↦ fail_upload os u e s' | ok _ ↦ (s', ok tt) ]

    -- The digest comes from the hasher, or from a read of the file.
    unfoldable pub hash_and_move :
        Os
        → Upload
        → Option Bytes
        → Option ObjectMeta
        → Bytes
        → Session
        → Session × Result (Unit {0})
    unfolding move_and_publish fail_upload
    hash_and_move os u none meta content s =
        if os.hash_ok
        then move_and_publish os u content (sha content) (length content) meta s
        else fail_upload os u Error.other s
    hash_and_move os u (some fed) meta content s =
        move_and_publish os u content (sha fed) (length content) meta s

    unfoldable pub finalize :
        Os → Upload → Option Bytes → Option ObjectMeta → Session → Session × Result (Unit {0})
    unfolding put_upload hash_and_move
    finalize os u pre meta s =
        let u' : Upload = record u { state = State.finalizing; updated_at = os.now } in
        let s' : Session = put_upload u' s in
        elim (s'.disk u'.staging_path) [
          | none ↦ fail_upload os u' Error.other s'
          | some content ↦ hash_and_move os u' pre meta content s'
        ]

    -- A complete file is closed and published.
    unfoldable pub publish_staged : Os → Session → Session × Result (Unit {0})
    unfolding precomputed finalize
    publish_staged os s = elim (s.disk s.h.upload.staging_path) [
      | none ↦ fail_upload os s.h.upload Error.other s
      | some content ↦
          if not (os.stat_ok && os.sync_ok)
          then fail_upload os s.h.upload Error.other s
          else if not os.close_ok
          then fail_upload os s.h.upload Error.other s
          else finalize os s.h.upload (precomputed s.h.hasher s.h.base_size (length content))
              s.h.meta (record s { h = record s.h { file = none } })
    ]

    unfoldable pub settle_and_publish : Os → Session → Session × Result (Unit {0})
    unfolding settle is_incomplete interrupt_handle fail_upload publish_staged
    settle_and_publish os s =
        let (s', r) = settle os s in
        elim r [
          | err e ↦
              if is_incomplete e
              then interrupt_handle text os e s'
              else fail_upload os s'.h.upload e s'
          | ok _ ↦ publish_staged os s'
        ]

    -- A handle that nothing was written to publishes an empty file, unless it kept what is there.
    unfoldable pub close_unbroken : Os → Session → Session × Result (Unit {0})
    unfolding start_fresh settle_and_publish is_empty
    close_unbroken os s =
        if s.h.resolved
        then settle_and_publish os s
        else if not (is_empty s.h.candidates)
        then (s, ok tt)
        else let (s', r) = start_fresh root text os s in
          elim r [ err e ↦ (s', err e) | ok _ ↦ settle_and_publish os s' ]

    unfoldable pub close_open : Os → Session → Session × Result (Unit {0})
    unfolding close_unbroken interrupt_handle fail_upload
    close_open os s = elim s.h.failed [
      | none ↦ close_unbroken os s
      | some e ↦ elim s.h.file [
        | none ↦ (s, err e)
        | some name ↦
            if s.h.fatal then fail_upload os s.h.upload e s else interrupt_handle text os e s
      ]
    ]

    unfoldable pub close : Os → Session → Session × Result (Unit {0})
    unfolding close_open let_go
    close os s =
        if s.h.closed
        then (s, ok tt)
        else let (s', r) = close_open os (record s { h = record s.h { closed = true } }) in
          (record s' { inflight = s'.inflight -ℤ pos 1; h = let_go s'.h }, r)
