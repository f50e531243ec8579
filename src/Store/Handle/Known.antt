-- ===== src/Store/Handle/Known.antt =====
-- What a client knows of its file, under the calls of an open upload handle
-- (internal/store/upload.go).
use xsync.Prelude.{
  ℕ, ◌≡◌, refl, sym, ◌∙◌, ap, Bool, true, false, Option, none, some, ◌==◌, if◌then◌else◌, if_intro,
  inl, inr, Option-cases, ltb, arith,
}
use xsync.Prelude.Bytes.{Bytes}
use xsync.Prelude.Int.{pos, negsuc}
use xsync.Bolt.{Bolt}
use xsync.Upload.Coverage.{end}
use xsync.Upload.Coverage.Contents.{covered}
use xsync.Upload.Hasher.{byte_at}
use xsync.Upload.Tracking.{Stage, Sparse, intended, stage_truncate}
use xsync.Store.Error.{Error, Result, ok, err}
use xsync.Store.Handle.{Os, Session, start_fresh, adopt, resolve}
use xsync.Store.Handle.Writing.{
  is_appending, keep_first, break_with, note_failure, append_offset, gated_write, resolved_at,
  write_locked, handle_write_at, append_write, resolved_for, find_at_least, raw_truncate,
  truncate_handle,
}
use xsync.Store.Handle.Steps.{
  Call, write, append, truncate, break_off, fail, describe, perform_call, effective, known, Live,
  opened, called, elsewhere,
}
use xsync.Store.Handle.Invariant.{stage_of, IsSound, Started}
use xsync.Store.Handle.Running.{
  Live-IsSound, opened_stage, resolved_at-Started, resolved_for-Started, keep_first-ne-none,
}
use xsync.Store.Handle.Written.{
  Knows, Knows-weaken, Knows-nothing, break-Knows, failed-Knows, note-Knows, put_stage-Knows, Wrote,
  Wrote-nothing, gated_write-Knows, cut-told,
}

-- What a truncation to `size` leaves.
abbrev below : Sparse → ℕ → Sparse
below f size x = if ltb x size then f x else none

-- A byte that is known counts as data, and is in the file.
pub known_byte :
    (st : Stage) (x b : ℕ)
    → intended st x ≡ some b
    → (covered st.cov x ≡ true) × (byte_at st.content x ≡ b)
known_byte st x b e = ground arith

module _ ⦃bolt : Bolt⦄ where
  -- After a start, which may fail, of a handle that was used or not.
  abbrev Ready : Sparse → Session × Result (Unit {0}) → Type 0
  Ready f (s, ok _) = Knows s f
  Ready f (s, err e) = s.h.resolved ≡ false → (x : ℕ) → f x ≡ none

  started-Ready :
      (f : Sparse) (y : Session × Result (Unit {0})) → ((x : ℕ) → f x ≡ none) → Ready f y
  started-Ready f (s, ok _) n = Knows-nothing s f n
  started-Ready f (s, err e) n = λ _. n

  below-Knows : (s : Session) (f : Sparse) (size : ℕ) → Knows s f → Knows s (below f size)
  below-Knows s f size k =
      Knows-weaken s f (below f size) (λ x b q. ground arith) (λ x q. ground arith) k

  raw_truncate-Knows :
      (root : Bytes) (text : Error → Bytes) (os : Os) (size : ℕ) (s : Session) (f : Sparse)
      → s.h.resolved ≡ true
      → IsSound s
      → Knows s f
      → Knows (raw_truncate root text os size s).0 (below f size)
  unfolding raw_truncate
  raw_truncate-Knows root text os size s f r v k =
      let g : Sparse = below f size in
      let kept : Knows (note_failure s Error.other) g =
        note-Knows s Error.other g (below-Knows s f size k) in
      elim (Option-cases s.h.file) [
        | inl e ↦ rw (e, raw_truncate) kept
        | inr (name, e) ↦ elim (Option-cases (s.disk name)) [
          | inl d ↦ rw (e, d, raw_truncate) kept
          | inr (content, d) ↦
              let st = stage_of content s.h.cov s.h.hasher in
              rw (e, d, raw_truncate)
                (if_intro (λ (x : Session × Option Error). Knows x.0 g) os.truncate_ok
                  (λ _. put_stage-Knows s name (stage_truncate st size) g r (λ live.
                    let (own, file, tracks) = opened_stage s name content v r e d live in
                    (
                      own,
                      λ x b q.
                          cut-told st f size x b tracks (k.there live r content (ap s.disk own ∙ d))
                            q,
                    )))
                  (λ _. kept))
        ]
      ]

  module _ (root : Bytes) (text : Error → Bytes) where
    resolved_at-Ready :
        (os : Os) (off : ℕ) (s : Session) (f : Sparse)
        → Knows s f
        → Ready f (resolved_at root text os off s)
    unfolding resolved_at
    resolved_at-Ready os off s f k =
        if_intro (Ready f) s.h.resolved (λ _. k)
          (λ e. started-Ready f (resolve root text os off s) (k.unwritten e))

    resolved_for-Ready :
        (os : Os) (size : ℕ) (s : Session) (f : Sparse)
        → Knows s f
        → Ready f (resolved_for root text os size s)
    unfolding resolved_for
    resolved_for-Ready os size s f k =
        if_intro (Ready f) s.h.resolved (λ _. k)
          (λ e.
            if_intro (Ready f) (size == 0)
              (λ _. started-Ready f (start_fresh root text os s) (k.unwritten e))
              (λ _. elim (Option-cases (find_at_least s.h.candidates size)) [
                | inl q ↦ rw q (λ _. k.unwritten e)
                | inr (c, q) ↦ rw q (started-Ready f (adopt root text os c s) (k.unwritten e))
              ]))

    resolved-Wrote :
        (os : Os) (p : Bytes) (n : ℕ) (translate : Bool) (f : Sparse)
        (x : Session × Result (Unit {0}))
        → Started x
        → Ready f x
        → Wrote f
            (if translate then (append_offset x.0.h n).1 else n)
            p
            (elim x.1 as (λ _. Session × ℕ × Option Error) [
              | err e ↦ (break_with x.0 e, 0, some e)
              | ok _ ↦ gated_write os p n translate x.0
            ])
    resolved-Wrote os p n translate f (s, err e) b k =
        Wrote-nothing (break_with s e) f _ p (some e) (break-Knows s e f k)
    resolved-Wrote os p n translate f (s, ok _) b k =
        gated_write-Knows os p n translate s f b.0 b.1 k

    write_locked-Knows :
        (os : Os) (p : Bytes) (n : ℕ) (translate : Bool) (s : Session) (f : Sparse)
        → IsSound s
        → Knows s f
        → Wrote f
            (effective root text os n translate s)
            p
            (write_locked root text os p (pos n) translate s)
    unfolding write_locked
    write_locked-Knows os p n translate s f v k =
        let at : ℕ = effective root text os n translate s in
        if_intro (Wrote f at p) s.h.closed (λ _. Wrote-nothing s f at p (some Error.other) k)
          (λ _. go s.h.failed)
      where
        go :
            (g : Option Error)
            → Wrote f
                (effective root text os n translate s)
                p
                (elim g as (λ _. Session × ℕ × Option Error) [
                  | some e ↦ (s, 0, some e)
                  | none ↦
                      let (s', r) = resolved_at root text os n s in
                      elim r as (λ _. Session × ℕ × Option Error) [
                        | err e ↦ (break_with s' e, 0, some e)
                        | ok _ ↦ gated_write os p n translate s'
                      ]
                ])
        go (some e) = Wrote-nothing s f (effective root text os n translate s) p (some e) k
        go none =
            resolved-Wrote os p n translate f (resolved_at root text os n s)
              (resolved_at-Started root text os n s v) (resolved_at-Ready os n s f k)

    negative_write-Knows :
        (os : Os) (p : Bytes) (n : ℕ) (translate : Bool) (s : Session) (f : Sparse)
        → Knows s f
        → Knows (write_locked root text os p (negsuc n) translate s).0 f
    unfolding write_locked
    negative_write-Knows os p n translate s f k =
        if_intro (λ (x : Session × ℕ × Option Error). Knows x.0 f) s.h.closed (λ _. k)
          (λ _. elim (Option-cases s.h.failed) [ inl e ↦ rw e k | inr (e', e) ↦ rw e k ])

    resolved-Knows :
        (os : Os) (n : ℕ) (f : Sparse) (x : Session × Result (Unit {0}))
        → Started x
        → Ready f x
        → Knows
            (elim x.1 as (λ _. Session × Option Error) [
              | err e ↦ (break_with x.0 e, some e)
              | ok _ ↦ raw_truncate root text os n x.0
            ]).0
            (below f n)
    resolved-Knows os n f (s, err e) b k = below-Knows (break_with s e) f n (break-Knows s e f k)
    resolved-Knows os n f (s, ok _) b k = raw_truncate-Knows root text os n s f b.0 b.1 k

    truncate_handle-Knows :
        (os : Os) (n : ℕ) (s : Session) (f : Sparse)
        → IsSound s
        → Knows s f
        → Knows (truncate_handle root text os (pos n) s).0 (below f n)
    unfolding truncate_handle
    truncate_handle-Knows os n s f v k =
        if_intro (λ (x : Session × Option Error). Knows x.0 (below f n)) s.h.closed
          (λ _. below-Knows s f n k)
          (λ _.
            resolved-Knows os n f (resolved_for root text os n s)
              (resolved_for-Started root text os n s v) (resolved_for-Ready os n s f k))

    perform_call-Knows :
        (os : Os) (c : Call) (s : Session) (f : Sparse)
        → IsSound s
        → Knows s f
        → Knows (perform_call root text os c s) (known root text os c s f)
    unfolding perform_call known write_locked truncate_handle handle_write_at append_write
    perform_call-Knows os (write p (pos n)) s f v k =
        write_locked-Knows os p n (is_appending s.h.mode) s f v k
    perform_call-Knows os (write p (negsuc n)) s f v k =
        negative_write-Knows os p n (is_appending s.h.mode) s f k
    perform_call-Knows os (append p) s f v k =
        write_locked-Knows os p (if s.h.resolved then end s.h.cov else 0) false s f v k
    perform_call-Knows os (truncate (pos n)) s f v k = truncate_handle-Knows os n s f v k
    perform_call-Knows os (truncate (negsuc n)) s f v k =
        if_intro (λ (x : Session × Option Error). Knows x.0 f) s.h.closed (λ _. k) (λ _. k)
    perform_call-Knows os (break_off e) s f v k =
        failed-Knows s (keep_first s.h.failed e) f (keep_first-ne-none s.h.failed e) k
    perform_call-Knows os (fail e) s f v k = break-Knows s e f k.unwritten
    perform_call-Knows os (describe m) s f v k = k

    -- Whatever its protocol calls and whatever others do meanwhile: the file has the bytes that its
    -- client knows, and they count as data.
    pub Live-Knows : {s : Session} {f : Sparse} → Live root text s f → Knows s f
    Live-Knows (opened os draining pol store disk inflight tenant name protocol mode internal s e) =
        Knows-nothing s _ (λ x. refl)
    Live-Knows (called os c s f l) =
        perform_call-Knows os c s f (Live-IsSound root text l) (Live-Knows l)
    Live-Knows (elsewhere s f store disk inflight e l) =
        let k = Live-Knows l in
        record {
          there = λ live r content d. k.there live r content (sym e ∙ d);
          unwritten = k.unwritten;
        }
