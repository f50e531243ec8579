-- ===== src/Store/Handle/Written.antt =====
-- The bytes of a client in the staging file, under the calls of an open upload handle
-- (internal/store/upload.go).
use xsync.Prelude.{
  ℕ, zero, suc, ◌+◌, ◌≡◌, ◌≢◌, ◌⊎◌, refl, sym, subst, ◌∙◌, ap, Bool, true, false, Option, none,
  some, [], ◌∷◌, if◌then◌else◌, if_intro, inl, inr, Option-cases, length, ltb, leb, ◌&&◌, arith,
}
use xsync.Prelude.Bytes.{Bytes, take}
use xsync.Bolt.{Bolt}
use xsync.Upload.Coverage.{Coverage}
use xsync.Upload.Coverage.Contents.{covered-lt-end}
use xsync.Upload.Tracking.{
  Stage, Tracks, Sparse, sparse_write, intended, stage_write, stage_truncate,
}
use xsync.Upload.Tracking.Contents.{write-intended, truncate-intended}
use xsync.Store.Error.{Error, Result, ok, err}
use xsync.Store.Delete.{is_some}
use xsync.Store.Handle.{Os, Session, Disk, put_file, sent}
use xsync.Store.Handle.Writing.{
  break_with, note_failure, put_stage, raw_write, append_offset, gate_answer, gated_write,
}
use xsync.Store.Handle.Invariant.{put_file_self, stage_of, IsSound}
use xsync.Store.Handle.Running.{opened_stage}

-- Over the fields that it is about: as long as the file is good, the bytes of `f` are in it and
-- count as data.
pub record Told (failed : Option Error) (fatal resolved : Bool) (name : Bytes) (cov : Coverage)
    (disk : Disk) (f : Sparse) : Type 0 where
  pub there :
      (fatal ≡ false) ⊎ (failed ≡ none)
      → resolved ≡ true
      → (content : Bytes) → disk name ≡ some content
      → (x b : ℕ) → f x ≡ some b
      → intended (stage_of content cov none) x ≡ some b
  pub unwritten : resolved ≡ false → (x : ℕ) → f x ≡ none

sparse_write-none : (f : Sparse) (off x : ℕ) → sparse_write f [] off x ≡ f x
sparse_write-none f off x = ground arith

take-length : (l : Bytes) → take (length l) l ≡ l
unfolding take
take-length [] = refl
take-length (c ∷ l) = ap (λ r. c ∷ r) (take-length l)

take-take : (m : ℕ) (l : Bytes) → take (length (take m l)) l ≡ take m l
unfolding take
take-take zero l = refl
take-take (suc m) [] = refl
take-take (suc m) (c ∷ l) = ap (λ r. c ∷ r) (take-take m l)

-- The bytes that a write has reported.
take-sent : (n : Option ℕ) (p : Bytes) → take (length (sent n p)) p ≡ sent n p
unfolding sent
take-sent none p = take-length p
take-sent (some n) p = take-take n p

-- What is known of a file is known after a write of what was added.
write-told :
    (st : Stage) (f : Sparse) (p : Bytes) (off x b : ℕ)
    → Tracks st
    → ((y a : ℕ) → f y ≡ some a → intended st y ≡ some a)
    → sparse_write f p off x ≡ some b
    → intended (stage_write st p off) x ≡ some b
write-told st f p off x b t k e =
    write-intended st p off x t
    ∙ if_intro (λ (r : Option ℕ). r ≡ some b → sparse_write (intended st) p off x ≡ some b)
        (leb off x && ltb x (off + length p)) (λ i q. rw i q) (λ i q. rw i (k x b q)) e

pub cut-told :
    (st : Stage) (f : Sparse) (size x b : ℕ)
    → Tracks st
    → ((y a : ℕ) → f y ≡ some a → intended st y ≡ some a)
    → (if ltb x size then f x else none) ≡ some b
    → intended (stage_truncate st size) x ≡ some b
cut-told st f size x b t k e =
    ground (arith, truncate-intended st size x t, k x b, covered-lt-end 0 st.cov x t.normal)

module _ ⦃bolt : Bolt⦄ where
  abbrev pub Knows : Session → Sparse → Type 0
  Knows s f = Told s.h.failed s.h.fatal s.h.resolved s.h.upload.staging_path s.h.cov s.disk f

  pub Knows-weaken :
      (s : Session) (f g : Sparse)
      → ((x b : ℕ) → g x ≡ some b → f x ≡ some b)
      → ((x : ℕ) → f x ≡ none → g x ≡ none)
      → Knows s f
      → Knows s g
  Knows-weaken s f g w n k = record {
    there = λ live r content d x b e. k.there live r content d x b (w x b e);
    unwritten = λ r x. n x (k.unwritten r x);
  }

  pub Knows-nothing : (s : Session) (f : Sparse) → ((x : ℕ) → f x ≡ none) → Knows s f
  Knows-nothing s f n = record { there = λ live r content d x b e. cc (e, n x); unwritten = λ r. n }

  pub break-Knows :
      (s : Session) (e : Error) (f : Sparse)
      → (s.h.resolved ≡ false → (x : ℕ) → f x ≡ none)
      → Knows (break_with s e) f
  break-Knows s e f n = record {
    there = λ live. elim live [ inl q ↦ cc (q) | inr q ↦ cc (q) ];
    unwritten = n;
  }

  pub failed-Knows :
      (s : Session) (g : Option Error) (f : Sparse)
      → g ≢ none
      → Knows s f
      → Knows (record s { h = record s.h { failed = g } }) f
  failed-Knows s g f n k = record {
    there = λ live. elim live [ inl q ↦ k.there (inl q) | inr q ↦ absurd (n q) ];
    unwritten = k.unwritten;
  }

  pub note-Knows : (s : Session) (e : Error) (f : Sparse) → Knows s f → Knows (note_failure s e) f
  note-Knows s e f k = failed-Knows s (some e) f (λ q. cc (q)) k

  pub put_stage-Knows :
      (s : Session) (name : Bytes) (st : Stage) (g : Sparse)
      → s.h.resolved ≡ true
      → ((s.h.fatal ≡ false) ⊎ (s.h.failed ≡ none)
          → (s.h.upload.staging_path ≡ name) × ((x b : ℕ) → g x ≡ some b → intended st x ≡ some b))
      → Knows (put_stage s name st) g
  put_stage-Knows s name st g r t = record {
    there = λ live _ content d x b e.
        let (own, k) = t live in
        let self : put_file s.disk name st.content s.h.upload.staging_path ≡ some st.content =
          ap (put_file s.disk name st.content) own ∙ put_file_self s.disk name st.content in
        let same : st.content ≡ content = cc (self, d) in
        subst (λ c. intended (stage_of c st.cov none) x ≡ some b) same (k x b e);
    unwritten = λ q. cc (q, r);
  }

  -- After a write that reports its count.
  abbrev pub Wrote : Sparse → ℕ → Bytes → Session × ℕ × Option Error → Type 0
  Wrote f off p r = Knows r.0 (sparse_write f (take r.1 p) off)

  pub Wrote-nothing :
      (s : Session) (f : Sparse) (off : ℕ) (p : Bytes) (e : Option Error)
      → Knows s f
      → Wrote f off p (s, 0, e)
  unfolding take
  Wrote-nothing s f off p e k =
      Knows-weaken s f (sparse_write f [] off) (λ x b q. sym (sparse_write-none f off x) ∙ q)
        (λ x q. sparse_write-none f off x ∙ q) k

  raw_write-Knows :
      (os : Os) (p : Bytes) (off : ℕ) (s : Session) (f : Sparse)
      → s.h.resolved ≡ true
      → IsSound s
      → Knows s f
      → Wrote f off p (raw_write os p off s)
  unfolding raw_write
  raw_write-Knows os p off s f r v k = elim (Option-cases s.h.file) [
    | inl e ↦
        rw (e, raw_write)
          (Wrote-nothing (note_failure s Error.other) f off p (some Error.other)
            (note-Knows s Error.other f k))
    | inr (name, e) ↦ elim (Option-cases (s.disk name)) [
      | inl d ↦
          rw (e, d, raw_write)
            (Wrote-nothing (note_failure s Error.other) f off p (some Error.other)
              (note-Knows s Error.other f k))
      | inr (content, d) ↦
          let st = stage_of content s.h.cov s.h.hasher in
          let taken = sent os.wrote p in
          let g = sparse_write f (take (length taken) p) off in
          let after : Knows (put_stage s name (stage_write st taken off)) g =
            put_stage-Knows s name (stage_write st taken off) g r (λ live.
              let (own, file, tracks) = opened_stage s name content v r e d live in
              (
                own,
                λ x b q.
                    write-told st f taken off x b tracks
                      (k.there live r content (ap s.disk own ∙ d))
                      (subst (λ t. sparse_write f t off x ≡ some b) (take-sent os.wrote p) q),
              )) in
          rw (e, d, raw_write)
            (if_intro (Wrote f off p) (is_some os.wrote)
              (λ _. note-Knows (put_stage s name (stage_write st taken off)) Error.other g after)
              (λ _. after))
    ]
  ]

  answered-Knows :
      (os : Os) (p : Bytes) (at : ℕ) (s : Session) (f : Sparse) (a : Result (Unit {0}))
      → s.h.resolved ≡ true
      → IsSound s
      → Knows s f
      → Wrote f at p (elim a as (λ _. Session × ℕ × Option Error) [
        | err e ↦ (note_failure s e, 0, some e)
        | ok _ ↦ raw_write os p at s
      ])
  answered-Knows os p at s f (err e) r v k =
      Wrote-nothing (note_failure s e) f at p (some e) (note-Knows s e f k)
  answered-Knows os p at s f (ok _) r v k = raw_write-Knows os p at s f r v k

  pub gated_write-Knows :
      (os : Os) (p : Bytes) (off : ℕ) (translate : Bool) (s : Session) (f : Sparse)
      → s.h.resolved ≡ true
      → IsSound s
      → Knows s f
      → Wrote f
          (if translate then (append_offset s.h off).1 else off)
          p
          (gated_write os p off translate s)
  unfolding gated_write append_offset
  gated_write-Knows os p off true s f r v k =
      let (h, at) = append_offset s.h off in
      answered-Knows os p at (record s { h = h }) f (gate_answer os h.unmetered (length p)) r v k
  gated_write-Knows os p off false s f r v k =
      answered-Knows os p off s f (gate_answer os s.h.unmetered (length p)) r v k
