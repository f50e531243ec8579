-- ===== src/Store/Handle/Running.antt =====
-- The staging file under the calls of an open upload handle (internal/store/upload.go).
use xsync.Prelude.{
  ℕ, ◌≡◌, ◌≢◌, ◌⊎◌, refl, sym, subst, ◌∙◌, ap, Bool, true, false, not, Option, none, some, List, [],
  ◌∷◌, ◌==◌, if◌then◌else◌, if_intro, inl, inr, Option-cases, length,
}
use xsync.Prelude.Bytes.{Bytes, bytes_eq}
use xsync.Prelude.Int.{ℤ, pos, negsuc}
use xsync.Bolt.{Bolt}
use xsync.Upload.Coverage.{end}
use xsync.Upload.Tracking.{Sparse, Stage, Tracks, stage_write, stage_truncate}
use xsync.Upload.Tracking.Contents.{stage_write-Tracks, stage_truncate-Tracks}
use xsync.Store.Error.{Error, Result, ok, err, as_invalid_path}
use xsync.Store.Ensures.{Ensures, Ensures-bind, Ensures-guard}
use xsync.Store.Path.{clean_path}
use xsync.Store.Namespace.{check_file_path}
use xsync.Store.Policy.{Policy}
use xsync.Store.Delete.{is_some}
use xsync.Store.Run.{Store}
use xsync.Store.Handle.{
  Os, Session, Disk, OpenMode, Base, put_file, truncating, resuming, appending, sent, start_fresh,
  adopt,
}
use xsync.Store.Handle.Writing.{
  is_appending, keep_first, break_with, note_failure, put_stage, raw_write, append_offset,
  gate_answer, gated_write, resolved_at, write_locked, resolved_for, find_at_least, raw_truncate,
  truncate_handle,
}
use xsync.Store.Handle.Open.{
  base_candidates, start_mode, finish_open, open_upload, new_handle, admission,
}
use xsync.Store.Handle.Steps.{
  Call, write, append, truncate, break_off, fail, describe, perform_call, Live, opened, called,
  elsewhere,
}
use xsync.Store.Handle.Invariant.{
  put_file_self, stage_of, IsSound, Started, start_fresh-Started, adopt-Started, resolve-Started,
}

pub keep_first-ne-none : (f : Option Error) (e : Error) → keep_first f e ≢ none
unfolding keep_first
keep_first-ne-none none e q = cc (q)
keep_first-ne-none (some first) e q = cc (q)

module _ ⦃bolt : Bolt⦄ where
  break-IsSound :
      (s : Session) (e : Error) → (s.h.resolved ≡ false → s.h.cov ≡ []) → IsSound (break_with s e)
  break-IsSound s e i = record {
    holds = λ c r. elim c [ inl f ↦ cc (f) | inr f ↦ cc (f) ];
    idle = i;
  }

  -- A failure that leaves the file as it is.
  failed-IsSound :
      (s : Session) (f : Option Error)
      → f ≢ none
      → IsSound s
      → IsSound (record s { h = record s.h { failed = f } })
  failed-IsSound s f n v = record {
    holds = λ c r. elim c [ inl e ↦ v.holds (inl e) r | inr e ↦ absurd (n e) ];
    idle = v.idle;
  }

  note-IsSound : (s : Session) (e : Error) → IsSound s → IsSound (note_failure s e)
  note-IsSound s e v = failed-IsSound s (some e) (λ q. cc (q)) v

  -- The open file after an edit that its stage went through.
  put_stage-IsSound :
      (s : Session) (name : Bytes) (st : Stage)
      → s.h.resolved ≡ true
      → ((s.h.fatal ≡ false) ⊎ (s.h.failed ≡ none)
          → (s.h.upload.staging_path ≡ name) × (s.h.file ≡ some name) × Tracks st)
      → IsSound (put_stage s name st)
  put_stage-IsSound s name st r t = record {
    holds = λ live _.
        let (own, file, tracks) = t live in
        (
          st.content,
          record {
            opened = file ∙ ap some (sym own);
            there = ap (put_file s.disk name st.content) own ∙ put_file_self s.disk name st.content;
            tracks = tracks;
          },
        );
    idle = λ e. cc (e, r);
  }

  -- What a sound handle has open, by the name and the contents that its calls read.
  pub opened_stage :
      (s : Session) (name content : Bytes)
      → IsSound s
      → s.h.resolved ≡ true
      → s.h.file ≡ some name
      → s.disk name ≡ some content
      → (s.h.fatal ≡ false) ⊎ (s.h.failed ≡ none)
      → (s.h.upload.staging_path ≡ name)
        × (s.h.file ≡ some name)
        × Tracks (stage_of content s.h.cov s.h.hasher)
  opened_stage s name content v r f d live =
      let (c, k) = v.holds live r in
      let own : s.h.upload.staging_path ≡ name = cc (k.opened, f) in
      let same : c ≡ content = cc (k.there, d, own) in
      (own, f, subst (λ x. Tracks (stage_of x s.h.cov s.h.hasher)) same k.tracks)

  raw_write-IsSound :
      (os : Os) (p : Bytes) (off : ℕ) (s : Session)
      → s.h.resolved ≡ true
      → IsSound s
      → IsSound (raw_write os p off s).0
  unfolding raw_write
  raw_write-IsSound os p off s r v = elim (Option-cases s.h.file) [
    | inl e ↦ rw (e, raw_write) (note-IsSound s Error.other v)
    | inr (name, e) ↦ elim (Option-cases (s.disk name)) [
      | inl f ↦ rw (e, f, raw_write) (note-IsSound s Error.other v)
      | inr (content, f) ↦
          let st = stage_of content s.h.cov s.h.hasher in
          let after : IsSound (put_stage s name (stage_write st (sent os.wrote p) off)) =
            put_stage-IsSound s name (stage_write st (sent os.wrote p) off) r (λ live.
              let (own, file, tracks) = opened_stage s name content v r e f live in
              (own, file, stage_write-Tracks st (sent os.wrote p) off tracks)) in
          rw (e, f, raw_write)
            (if_intro (λ (x : Session × ℕ × Option Error). IsSound x.0) (is_some os.wrote)
              (λ _.
                note-IsSound (put_stage s name (stage_write st (sent os.wrote p) off)) Error.other
                  after)
              (λ _. after))
    ]
  ]

  answered-IsSound :
      (os : Os) (p : Bytes) (at : ℕ) (s : Session) (a : Result (Unit {0}))
      → s.h.resolved ≡ true
      → IsSound s
      → IsSound (
          let x : Session × ℕ × Option Error = elim a [
            | err e ↦ (note_failure s e, 0, some e)
            | ok _ ↦ raw_write os p at s
          ] in
          x.0)
  answered-IsSound os p at s (err e) r v = note-IsSound s e v
  answered-IsSound os p at s (ok _) r v = raw_write-IsSound os p at s r v

  gated_write-IsSound :
      (os : Os) (p : Bytes) (off : ℕ) (translate : Bool) (s : Session)
      → s.h.resolved ≡ true
      → IsSound s
      → IsSound (gated_write os p off translate s).0
  unfolding gated_write append_offset
  gated_write-IsSound os p off true s r v =
      let (h, at) = append_offset s.h off in
      answered-IsSound os p at (record s { h = h }) (gate_answer os h.unmetered (length p)) r v
  gated_write-IsSound os p off false s r v =
      answered-IsSound os p off s (gate_answer os s.h.unmetered (length p)) r v

  module _ (root : Bytes) (text : Error → Bytes) where
    pub resolved_at-Started :
        (os : Os) (off : ℕ) (s : Session) → IsSound s → Started (resolved_at root text os off s)
    unfolding resolved_at
    resolved_at-Started os off s v =
        if_intro Started s.h.resolved (λ e. (e, v))
          (λ e. resolve-Started root text os off s (v.idle e))

    pub resolved_for-Started :
        (os : Os) (size : ℕ) (s : Session) → IsSound s → Started (resolved_for root text os size s)
    unfolding resolved_for
    resolved_for-Started os size s v =
        if_intro Started s.h.resolved (λ e. (e, v))
          (λ e.
            if_intro Started (size == 0) (λ _. start_fresh-Started root text os s (v.idle e))
              (λ _. elim (Option-cases (find_at_least s.h.candidates size)) [
                | inl f ↦ rw f (λ _. v.idle e)
                | inr (c, f) ↦ rw f (adopt-Started root text os c s (v.idle e))
              ]))

    write_locked-IsSound :
        (os : Os) (p : Bytes) (off : ℤ) (translate : Bool) (s : Session)
        → IsSound s
        → IsSound (write_locked root text os p off translate s).0
    unfolding write_locked
    write_locked-IsSound os p off translate s v =
        if_intro (λ (x : Session × ℕ × Option Error). IsSound x.0) s.h.closed (λ _. v)
          (λ _. at_failed s.h.failed off)
      where
        ready :
            (n : ℕ) (x : Session × Result (Unit {0}))
            → Started x
            → IsSound (
                let y : Session × ℕ × Option Error = elim x.1 [
                  | err e ↦ (break_with x.0 e, 0, some e)
                  | ok _ ↦ gated_write os p n translate x.0
                ] in
                y.0)
        ready n (s', err e) b = break-IsSound s' e b
        ready n (s', ok _) b = gated_write-IsSound os p n translate s' b.0 b.1

        at_failed :
            (f : Option Error) (at : ℤ)
            → IsSound (
                let y : Session × ℕ × Option Error = elim f [
                  | some e ↦ (s, 0, some e)
                  | none ↦ elim at [
                    | negsuc n ↦ (s, 0, some Error.invalid_offset)
                    | pos n ↦
                        let (s', r) = resolved_at root text os n s in
                        elim r [
                          | err e ↦ (break_with s' e, 0, some e)
                          | ok _ ↦ gated_write os p n translate s'
                        ]
                  ]
                ] in
                y.0)
        at_failed (some e) at = v
        at_failed none (negsuc n) = v
        at_failed none (pos n) =
            ready n (resolved_at root text os n s) (resolved_at-Started os n s v)

    raw_truncate-IsSound :
        (os : Os) (size : ℕ) (s : Session)
        → s.h.resolved ≡ true
        → IsSound s
        → IsSound (raw_truncate root text os size s).0
    unfolding raw_truncate
    raw_truncate-IsSound os size s r v = elim (Option-cases s.h.file) [
      | inl e ↦ rw (e, raw_truncate) (note-IsSound s Error.other v)
      | inr (name, e) ↦ elim (Option-cases (s.disk name)) [
        | inl f ↦ rw (e, f, raw_truncate) (note-IsSound s Error.other v)
        | inr (content, f) ↦
            let st = stage_of content s.h.cov s.h.hasher in
            rw (e, f, raw_truncate)
              (if_intro (λ (x : Session × Option Error). IsSound x.0) os.truncate_ok
                (λ _. put_stage-IsSound s name (stage_truncate st size) r (λ live.
                  let (own, file, tracks) = opened_stage s name content v r e f live in
                  (own, file, stage_truncate-Tracks st size tracks)))
                (λ _. note-IsSound s Error.other v))
      ]
    ]

    truncate_handle-IsSound :
        (os : Os) (size : ℤ) (s : Session)
        → IsSound s
        → IsSound (truncate_handle root text os size s).0
    unfolding truncate_handle
    truncate_handle-IsSound os (negsuc n) s v =
        if_intro (λ (x : Session × Option Error). IsSound x.0) s.h.closed (λ _. v) (λ _. v)
    truncate_handle-IsSound os (pos n) s v =
        if_intro (λ (x : Session × Option Error). IsSound x.0) s.h.closed (λ _. v)
          (λ _. ready (resolved_for root text os n s) (resolved_for-Started os n s v))
      where
        ready :
            (x : Session × Result (Unit {0}))
            → Started x
            → IsSound (
                let y : Session × Option Error = elim x.1 [
                  | err e ↦ (break_with x.0 e, some e)
                  | ok _ ↦ raw_truncate root text os n x.0
                ] in
                y.0)
        ready (s', err e) b = break-IsSound s' e b
        ready (s', ok _) b = raw_truncate-IsSound os n s' b.0 b.1

    perform_call-IsSound :
        (os : Os) (c : Call) (s : Session) → IsSound s → IsSound (perform_call root text os c s)
    unfolding perform_call
    perform_call-IsSound os (write p off) s v =
        write_locked-IsSound os p off (is_appending s.h.mode) s v
    perform_call-IsSound os (append p) s v =
        write_locked-IsSound os p (pos (if s.h.resolved then end s.h.cov else 0)) false s v
    perform_call-IsSound os (truncate size) s v = truncate_handle-IsSound os size s v
    perform_call-IsSound os (break_off e) s v =
        failed-IsSound s (keep_first s.h.failed e) (keep_first-ne-none s.h.failed e) v
    perform_call-IsSound os (fail e) s v = break-IsSound s e v.idle
    perform_call-IsSound os (describe m) s v = v

    -- An open that gives a handle gives a sound one.
    abbrev Usable : Session × Result (Unit {0}) → Type 0
    Usable (s, ok _) = IsSound s
    Usable (s, err e) = Unit

    start_mode-Usable :
        (os : Os) (s : Session)
        → s.h.cov ≡ []
        → s.h.resolved ≡ false
        → Usable (start_mode root text os s)
    unfolding start_mode
    start_mode-Usable os s c r =
        go s.h.mode (base_candidates os s.store.db s.disk s.h.tenant s.h.path)
      where
        weaken : (x : Session × Result (Unit {0})) → Started x → Usable x
        weaken (t, ok _) b = b.1
        weaken (t, err e) b = tt

        choose :
            (cs : List Base)
            → Usable
                (elim cs [ [] ↦ start_fresh root text os s | b ∷ more ↦ adopt root text os b s ])
        choose [] = weaken (start_fresh root text os s) (start_fresh-Started root text os s c)
        choose (b ∷ more) = weaken (adopt root text os b s) (adopt-Started root text os b s c)

        go :
            (mode : OpenMode) (cs : List Base)
            → Usable (elim mode [
              | truncating ↦ start_fresh root text os s
              | resuming ↦ (record s { h = record s.h { candidates = cs } }, ok tt)
              | appending ↦ elim cs [
                | [] ↦ start_fresh root text os s
                | b ∷ more ↦ adopt root text os b s
              ]
            ])
        go truncating cs =
            weaken (start_fresh root text os s) (start_fresh-Started root text os s c)
        go resuming cs = record { holds = λ f e. cc (r, e); idle = λ _. c }
        go appending cs = choose cs

    finish_open-Usable : (x : Session × Result (Unit {0})) → Usable x → Usable (finish_open x)
    unfolding finish_open
    finish_open-Usable (s, err e) b = tt
    finish_open-Usable (s, ok _) b = b

    open_upload-Usable :
        (os : Os) (draining : Bool) (pol : Policy) (store : Store) (disk : Disk) (inflight : ℤ)
        (tenant name protocol : Bytes) (mode : OpenMode) (internal : Bool)
        → Ensures Usable (
            open_upload root text os draining pol store disk inflight tenant name protocol mode
              internal)
    unfolding open_upload
    open_upload-Usable os draining pol store disk inflight tenant name protocol mode internal =
        Ensures-bind Usable (as_invalid_path (clean_path name)) _ (λ clean _.
          Ensures-guard Usable (not (bytes_eq clean [])) Error.invalid_path _ (λ _.
            Ensures-bind Usable (check_file_path store.db tenant clean) _ (λ _ _.
              Ensures-bind Usable (admission os draining pol store tenant internal) _ (λ _ _.
                let begun : Session = record {
                  store = store;
                  disk = disk;
                  inflight = inflight;
                  h = new_handle tenant clean protocol mode internal;
                } in
                finish_open-Usable (start_mode root text os begun)
                  (start_mode-Usable os begun refl refl)))))

    -- Whatever its protocol calls and whatever others do meanwhile, a handle is sound.
    pub Live-IsSound : {s : Session} {f : Sparse} → Live root text s f → IsSound s
    Live-IsSound
          (opened os draining pol store disk inflight tenant name protocol mode internal s e) =
        subst (Ensures Usable) e (
          open_upload-Usable os draining pol store disk inflight tenant name protocol mode internal)
    Live-IsSound (called os c s f l) = perform_call-IsSound os c s (Live-IsSound l)
    Live-IsSound (elsewhere s f store disk inflight e l) =
        let v = Live-IsSound l in
        record {
          holds = λ f r.
              let (content, k) = v.holds f r in
              (content, record { opened = k.opened; there = e ∙ k.there; tracks = k.tracks });
          idle = v.idle;
        }
