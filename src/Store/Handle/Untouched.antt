-- ===== src/Store/Handle/Untouched.antt =====
-- The objects and the names of the catalog under the steps of `Close` in internal/store/upload.go.
use xsync.Prelude.{
  ℕ, ◌≡◌, refl, ◌∙◌, ap, not, ◌&&◌, Option, none, some, ltb, if_intro, inl, inr, Option-cases,
  length, if◌then◌else◌, arith,
}
use xsync.Prelude.Bytes.{Bytes}
use xsync.Bolt.{Bolt}
use xsync.Model.{Upload, ObjectVersion, State}
use xsync.Upload.Coverage.{start}
use xsync.Store.Error.{Error, Result, ok, err}
use xsync.Store.Tx.{Tx, no_delta}
use xsync.Store.Counters.{apply}
use xsync.Store.Policy.{Policy}
use xsync.Store.Publish.{ObjectMeta, publish_tx}
use xsync.Store.Run.{Store, update}
use xsync.Store.Handle.{
  Base, Os, Session, put_file, remove_file, find_exact, find_larger, first_some, blob_path,
  start_tx, mark_tx, mark_upload, start_fresh,
}
use xsync.Store.Handle.Closing.{
  precomputed, copy_prefix, fill, check_gaps, settle, interrupt_handle, publish_update, put_upload,
  fail_upload, move_and_publish, hash_and_move, finalize, publish_staged,
}

module _ ⦃bolt : Bolt⦄ where
  open bolt use {Bucket}

  -- The objects and the names of the catalog are those of `s`.
  abbrev pub Untouched : Session → Session → Type 0
  Untouched s t =
      (t.store.db.objects ≡ s.store.db.objects) × (t.store.db.namespace ≡ s.store.db.namespace)

  pub trans : (s t u : Session) → Untouched s t → Untouched t u → Untouched s u
  trans s t u h k = (k.0 ∙ h.0, k.1 ∙ h.1)

  -- A call that fails leaves a session with `P`.
  abbrev pub OnFailure : (Session → Type 0) → Session × Result (Unit {0}) → Type 0
  OnFailure P (s, ok _) = Unit
  OnFailure P (s, err e) = P s

  -- One that leaves it so in any case.
  pub always : (P : Session → Type 0) (x : Session × Result (Unit {0})) → P x.0 → OnFailure P x
  always P (s, ok _) p = tt
  always P (s, err e) p = p

  pub OnFailure-err :
      (P : Session → Type 0) (x : Session × Result (Unit {0})) (e : Error)
      → x.1 ≡ err e
      → OnFailure P x
      → P x.0
  OnFailure-err P (s, ok _) e q p = cc (q)
  OnFailure-err P (s, err f) e q p = p

  pub OnFailure-trans :
      (s t : Session) (x : Session × Result (Unit {0}))
      → Untouched s t
      → OnFailure (Untouched t) x
      → OnFailure (Untouched s) x
  OnFailure-trans s t (u, ok _) h k = tt
  OnFailure-trans s t (u, err e) h k = trans s t u h k

  -- A closure that fails leaves the store as it was.
  update-err :
      {A : Type 0} (s : Store) (fn : Tx Bucket → Result (Tx Bucket × A)) (e : Error)
      → (update s fn).1 ≡ err e
      → (update s fn).0 ≡ s
  unfolding update
  update-err {A} s fn e = go (fn (record { db = s.db; delta = no_delta }))
    where
      go :
          (r : Result (Tx Bucket × A))
          → (let y : Store × Result A = elim r [
            | ok (tx, b) ↦ (record { db = tx.db; count = apply s.count tx.delta }, ok b)
            | err f ↦ (s, err f)
          ] in
              y.1)
            ≡ err e
          → (let y : Store × Result A = elim r [
            | ok (tx, b) ↦ (record { db = tx.db; count = apply s.count tx.delta }, ok b)
            | err f ↦ (s, err f)
          ] in
              y.0)
            ≡ s
      go (ok x) q = cc (q)
      go (err f) q = refl

  copy_prefix-store :
      (os : Os) (b : Base) (n : ℕ) (name content : Bytes) (s : Session)
      → (copy_prefix os b n name content s).0.store ≡ s.store
  unfolding copy_prefix
  copy_prefix-store os b n name content s = ground arith

  fill-store :
      (os : Os) (name content : Bytes) (s : Session) → (fill os name content s).0.store ≡ s.store
  unfolding fill
  fill-store os name content s =
      if_intro (λ (x : Session × Result (Unit {0})). x.0.store ≡ s.store)
        (s.h.fill_prefix && ltb 0 (start s.h.cov))
        (λ _.
          elim (Option-cases (
            first_some (find_exact s.h.candidates (start s.h.cov))
              (find_larger s.h.candidates (start s.h.cov)))) [
                | inl e ↦ rw e refl
                | inr (b, e) ↦ rw e (copy_prefix-store os b (start s.h.cov) name content s)
              ])
        (λ _. refl)

  pub settle-store : (os : Os) (s : Session) → (settle os s).0.store ≡ s.store
  unfolding settle
  settle-store os s = elim (Option-cases s.h.file) [
    | inl e ↦ simp (e, settle)
    | inr (name, e) ↦ elim (Option-cases (s.disk name)) [
      | inl f ↦ simp (e, f, settle)
      | inr (content, f) ↦
          simp (e, f, settle) (go name (fill os name content s) (fill-store os name content s))
    ]
  ]
    where
      go :
          (name : Bytes) (x : Session × Result (Unit {0}))
          → x.0.store ≡ s.store
          → (let y : Session × Result (Unit {0}) = elim x.1 [
            | err e ↦ (x.0, err e)
            | ok _ ↦ (x.0, check_gaps os name x.0)
          ] in
              y.0.store)
            ≡ s.store
      go name (t, err e) p = p
      go name (t, ok _) p = p

  module _ (root : Bytes) (text : Error → Bytes) where
    pub start_fresh-Untouched : (os : Os) (s : Session) → Untouched s (start_fresh root text os s).0
    unfolding start_fresh start_tx update
    start_fresh-Untouched os s = ground arith

    pub interrupt_handle-Untouched :
        (os : Os) (e : Error) (s : Session) → Untouched s (interrupt_handle text os e s).0
    unfolding interrupt_handle mark_upload mark_tx update
    interrupt_handle-Untouched os e s = (refl, refl)

  module _ (root : Bytes) (text : Error → Bytes) (sha : Bytes → Bytes)
      (policy : Bytes → Policy) where
    pub fail_upload-Untouched :
        (os : Os) (u : Upload) (e : Error) (s : Session)
        → Untouched s (fail_upload root text sha policy os u e s).0
    unfolding fail_upload mark_upload mark_tx update
    fail_upload-Untouched os u e s = (refl, refl)

    publish_update-Untouched :
        (pol : Policy) (os : Os) (u : Upload) (blob digest : Bytes) (size : ℕ)
        (meta : Option ObjectMeta) (s : Session)
        → OnFailure (Untouched s) (publish_update pol os u blob digest size meta s)
    unfolding publish_update
    publish_update-Untouched pol os u blob digest size meta s =
        go (update s.store fn) (update-err s.store fn)
      where
        fn : Tx Bucket → Result (Tx Bucket × Option ObjectVersion)
        fn tx = publish_tx pol os.now tx u blob digest size meta

        go :
            (x : Store × Result (Option ObjectVersion))
            → ((e : Error) → x.1 ≡ err e → x.0 ≡ s.store)
            → OnFailure
                (Untouched s)
                (record s { store = x.0 }, elim x.1 [ err e ↦ err e | ok _ ↦ ok tt ])
        go (store, ok v) h = tt
        go (store, err e) h = (
          ap (λ (a : Store). a.db.objects) (h e refl),
          ap (λ (a : Store). a.db.namespace) (h e refl),
        )

    move_and_publish-Untouched :
        (os : Os) (u : Upload) (content digest : Bytes) (size : ℕ) (meta : Option ObjectMeta)
        (s : Session)
        → OnFailure
            (Untouched s)
            (move_and_publish root text sha policy os u content digest size meta s)
    unfolding move_and_publish
    move_and_publish-Untouched os u content digest size meta s =
        let blob = blob_path root u.tenant u.id in
        let moved : Session = record s {
          disk = put_file (remove_file s.disk u.staging_path) blob content;
        } in
        if_intro (OnFailure (Untouched s)) (not (os.mkdir_ok && os.rename_ok))
          (λ _.
            given (fail_upload root text sha policy os u Error.other s)
              (fail_upload-Untouched os u Error.other s))
          (λ _.
            if_intro (OnFailure (Untouched s)) (not os.sync_dir_ok)
              (λ _.
                given (fail_upload root text sha policy os u Error.other moved)
                  (fail_upload-Untouched os u Error.other moved))
              (λ _.
                finish (publish_update (policy u.tenant) os u blob digest size meta moved)
                  (publish_update-Untouched (policy u.tenant) os u blob digest size meta moved)))
      where
        given : (x : Session × Result (Unit {0})) → Untouched s x.0 → OnFailure (Untouched s) x
        given = always (Untouched s)

        finish :
            (x : Session × Result (Unit {0}))
            → OnFailure (Untouched s) x
            → OnFailure (Untouched s) (elim x.1 [
              | err e ↦ fail_upload root text sha policy os u e x.0
              | ok _ ↦ (x.0, ok tt)
            ])
        finish (t, ok _) p = tt
        finish (t, err e) p = given (fail_upload root text sha policy os u e t) (
            trans s t (fail_upload root text sha policy os u e t).0 p
              (fail_upload-Untouched os u e t))

    hash_and_move-Untouched :
        (os : Os) (u : Upload) (pre : Option Bytes) (meta : Option ObjectMeta) (content : Bytes)
        (s : Session)
        → OnFailure (Untouched s) (hash_and_move root text sha policy os u pre meta content s)
    unfolding hash_and_move
    hash_and_move-Untouched os u none meta content s =
        if_intro (OnFailure (Untouched s)) os.hash_ok
          (λ _. move_and_publish-Untouched os u content (sha content) (length content) meta s)
          (λ _.
            always (Untouched s) (fail_upload root text sha policy os u Error.other s)
              (fail_upload-Untouched os u Error.other s))
    hash_and_move-Untouched os u (some fed) meta content s =
        move_and_publish-Untouched os u content (sha fed) (length content) meta s

    put_upload-Untouched : (u : Upload) (s : Session) → Untouched s (put_upload u s)
    unfolding put_upload update
    put_upload-Untouched u s = (refl, refl)

    finalize-Untouched :
        (os : Os) (u : Upload) (pre : Option Bytes) (meta : Option ObjectMeta) (s : Session)
        → OnFailure (Untouched s) (finalize root text sha policy os u pre meta s)
    unfolding finalize
    finalize-Untouched os u pre meta s =
        let u' : Upload = record u { state = State.finalizing; updated_at = os.now } in
        let s' : Session = put_upload u' s in
        go u' s' (put_upload-Untouched u' s) (s'.disk u'.staging_path)
      where
        go :
            (u' : Upload) (s' : Session)
            → Untouched s s'
            → (c : Option Bytes)
            → OnFailure (Untouched s) (elim c [
              | none ↦ fail_upload root text sha policy os u' Error.other s'
              | some content ↦ hash_and_move root text sha policy os u' pre meta content s'
            ])
        go u' s' h none =
            OnFailure-trans s s' (fail_upload root text sha policy os u' Error.other s') h (
              always (Untouched s') (fail_upload root text sha policy os u' Error.other s')
                (fail_upload-Untouched os u' Error.other s'))
        go u' s' h (some content) =
            OnFailure-trans s s' (hash_and_move root text sha policy os u' pre meta content s') h
              (hash_and_move-Untouched os u' pre meta content s')

    pub publish_staged-Untouched :
        (os : Os) (s : Session) → OnFailure (Untouched s) (publish_staged root text sha policy os s)
    unfolding publish_staged
    publish_staged-Untouched os s = go (s.disk s.h.upload.staging_path)
      where
        refused :
            OnFailure (Untouched s) (fail_upload root text sha policy os s.h.upload Error.other s)
        refused =
            always (Untouched s) (fail_upload root text sha policy os s.h.upload Error.other s)
              (fail_upload-Untouched os s.h.upload Error.other s)

        go :
            (c : Option Bytes)
            → OnFailure (Untouched s) (elim c [
              | none ↦ fail_upload root text sha policy os s.h.upload Error.other s
              | some content ↦
                  if not (os.stat_ok && os.sync_ok)
                  then fail_upload root text sha policy os s.h.upload Error.other s
                  else if not os.close_ok
                  then fail_upload root text sha policy os s.h.upload Error.other s
                  else finalize root text sha policy os s.h.upload
                      (precomputed s.h.hasher s.h.base_size (length content))
                      s.h.meta
                      (record s { h = record s.h { file = none } })
            ])
        go none = refused
        go (some content) =
            if_intro (OnFailure (Untouched s)) (not (os.stat_ok && os.sync_ok)) (λ _. refused)
              (λ _.
                if_intro (OnFailure (Untouched s)) (not os.close_ok) (λ _. refused)
                  (λ _.
                    finalize-Untouched os s.h.upload
                      (precomputed s.h.hasher s.h.base_size (length content)) s.h.meta
                      (record s { h = record s.h { file = none } })))
