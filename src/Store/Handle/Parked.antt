-- ===== src/Store/Handle/Parked.antt =====
-- What `Close` of internal/store/upload.go leaves of an upload that was broken off.
use xsync.Prelude.{
  ℕ, ◌<◌, ◌≡◌, refl, sym, subst, ap, true, false, none, some, inl, inr, Option-cases, length, arith,
}
use xsync.Prelude.Bytes.{Bytes, bytes_eq_iff}
use xsync.Prelude.Int.{pos, ◌-ℤ◌}
use xsync.Bolt.{Bolt}
use xsync.Model.{Upload, State}
use xsync.Upload.Coverage.{contiguous}
use xsync.Upload.Coverage.Contents.{covered, contiguous_exact}
use xsync.Upload.Hasher.{byte_at, file_truncate}
use xsync.Upload.File.{cut_to, byte_at-cut_to, length-cut_to}
use xsync.Upload.Tracking.{Stage, Tracks, Sparse, intended}
use xsync.Store.Error.{Error, Result, err}
use xsync.Store.Policy.{Policy}
use xsync.Store.Run.{update}
use xsync.Store.Index.Placing.{get-put_self}
use xsync.Store.Handle.{Os, Session, mark_tx, mark_upload}
use xsync.Store.Handle.Closing.{interrupt_handle, close_open, close, let_go}
use xsync.Store.Handle.Invariant.{stage_of, HoldsIn}
use xsync.Store.Handle.Running.{Live-IsSound}
use xsync.Store.Handle.Known.{known_byte, Live-Knows}
use xsync.Store.Handle.Steps.{Live}

-- The gap-free prefix of a file, cut off.
cut-intended :
    (st : Stage) (x : ℕ)
    → Tracks st
    → x < contiguous st.cov
    → intended st x ≡ some (byte_at (cut_to st.content (contiguous st.cov)) x)
unfolding file_truncate
cut-intended st x t l = ground (
  arith,
  (contiguous_exact st.cov t.normal).0 x l,
  byte_at-cut_to st.content (contiguous st.cov) x,
)

module _ ⦃bolt : Bolt⦄ where
  open bolt use {get}

  -- `kept` is the file up to the first byte that does not count as data, with the bytes of `f` up to
  -- the first that `f` has not, and the upload can be resumed.
  pub record IsParked (f : Sparse) (s : Session) (content : Bytes) (t : Session) : Type 0 where
    pub kept : Bytes
    pub there : t.disk s.h.upload.staging_path ≡ some kept
    pub gap : intended (stage_of content s.h.cov s.h.hasher) (length kept) ≡ none
    pub bytes :
        (x : ℕ)
        → x < length kept
        → intended (stage_of content s.h.cov s.h.hasher) x ≡ some (byte_at kept x)
    pub written : (x b : ℕ) → x < length kept → f x ≡ some b → byte_at kept x ≡ b
    pub unwritten : f (length kept) ≡ none
    pub upload : Upload
    pub stored : get t.store.db.uploads s.h.upload.id ≡ some upload
    pub resumable : upload.state ≡ State.interrupted

  interrupt_handle-IsParked :
      (text : Error → Bytes) (os : Os) (e : Error) (f : Sparse) (s : Session) (content : Bytes)
      → HoldsIn s content
      → ((x b : ℕ) → f x ≡ some b → intended (stage_of content s.h.cov s.h.hasher) x ≡ some b)
      → os.truncate_ok ≡ true
      → IsParked f s content (interrupt_handle text os e s).0
  unfolding interrupt_handle mark_upload mark_tx update
  interrupt_handle-IsParked text os e f s content h k t = record {
    kept = cut_to content (contiguous s.h.cov);
    there = simp (
      h.opened,
      h.there,
      t,
      (bytes_eq_iff s.h.upload.staging_path s.h.upload.staging_path).1 refl,
    );
    gap =
        rw
          (length-cut_to content (contiguous s.h.cov), (contiguous_exact s.h.cov h.tracks.normal).1)
          refl;
    bytes = λ x l.
        cut-intended (stage_of content s.h.cov s.h.hasher) x h.tracks
          (subst (λ n. x < n) (length-cut_to content (contiguous s.h.cov)) l);
    written = λ x b l q. cc (
      k x b q,
      cut-intended (stage_of content s.h.cov s.h.hasher) x h.tracks
          (subst (λ n. x < n) (length-cut_to content (contiguous s.h.cov)) l),
    );
    unwritten =
        rw (length-cut_to content (contiguous s.h.cov))
          (not_known (contiguous s.h.cov) (contiguous_exact s.h.cov h.tracks.normal).1);
    upload = record s.h.upload { state = State.interrupted; updated_at = os.now; error = text e };
    stored = get-put_self s.store.db.uploads s.h.upload.id _;
    resumable = refl;
  }
    where
      not_known : (n : ℕ) → covered s.h.cov n ≡ false → f n ≡ none
      not_known n gap = elim (Option-cases (f n)) [
        | inl q ↦ q
        | inr (b, q) ↦ cc (gap, (known_byte (stage_of content s.h.cov s.h.hasher) n b (k n b q)).0)
      ]

  abbrev left : Session × Result (Unit {0}) → Session × Result (Unit {0})
  left (t, r) = (record t { inflight = t.inflight -ℤ pos 1; h = let_go t.h }, r)

  interrupted_by :
      (root : Bytes) (text : Error → Bytes) (sha : Bytes → Bytes) (policy : Bytes → Policy)
      (os : Os) (s : Session) (e : Error)
      → s.h.closed ≡ false
      → s.h.fatal ≡ false
      → s.h.failed ≡ some e
      → s.h.file ≡ some s.h.upload.staging_path
      → close root text sha policy os s
        ≡ left (interrupt_handle text os e (record s { h = record s.h { closed = true } }))
  unfolding close close_open
  interrupted_by root text sha policy os s e c f g o = simp (c, g, o, f)

  -- Of a handle that was opened and used in whatever way: if the transfer failed after the file was
  -- begun, but its content is not known to be wrong, and the file can be cut, then `Close` reports
  -- the failure and parks the upload for resumption. The staging file is then cut to what the
  -- handle's coverage counts as data before its first gap, byte by byte. Each byte there that a
  -- write has reported written, and that no truncation has cut off, is as it was written last, and
  -- at the file's new end there is none.
  pub close-IsParked :
      (root : Bytes) (text : Error → Bytes) (sha : Bytes → Bytes) (policy : Bytes → Policy)
      (os : Os) (f : Sparse) (s : Session) (e : Error)
      → Live root text s f
      → s.h.closed ≡ false
      → s.h.resolved ≡ true
      → s.h.fatal ≡ false
      → s.h.failed ≡ some e
      → os.truncate_ok ≡ true
      → ((close root text sha policy os s).1 ≡ err e)
        × ((content : Bytes) × (s.disk s.h.upload.staging_path ≡ some content)
            × IsParked f s content (close root text sha policy os s).0)
  unfolding interrupt_handle let_go
  close-IsParked root text sha policy os f s e l c r fatal g t =
      let (content, h) = (Live-IsSound root text l).holds (inl fatal) r in
      let s' : Session = record s { h = record s.h { closed = true } } in
      let p =
        interrupt_handle-IsParked text os e f s' content
          (record { opened = h.opened; there = h.there; tracks = h.tracks })
          ((Live-Knows root text l).there (inl fatal) r content h.there) t in
      let by = interrupted_by root text sha policy os s e c fatal g h.opened in
      (
        ap (λ (x : Session × Result (Unit {0})). x.1) by,
        (
          content,
          h.there,
          subst (λ (x : Session × Result (Unit {0})). IsParked f s content x.0) (sym by)
              (record {
                kept = p.kept;
                there = p.there;
                gap = p.gap;
                bytes = p.bytes;
                written = p.written;
                unwritten = p.unwritten;
                upload = p.upload;
                stored = p.stored;
                resumable = p.resumable;
              }),
        ),
      )
