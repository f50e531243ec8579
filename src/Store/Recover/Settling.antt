-- ===== src/Store/Recover/Settling.antt =====
-- What `Recover` of internal/store/maintain.go leaves of the uploads of the catalog.
use xsync.Prelude.{
  ℕ, ◌≡◌, refl, sym, subst, ◌∙◌, not, ◌&&◌, false, Option, none, some, if_intro, Option-cases, inl,
  inr, arith, length,
}
use xsync.Prelude.Bytes.{Bytes, bytes_eq, bytes_eq_iff, codes}
use xsync.Bolt.{Bolt, get-put, get-delete}
use xsync.Model.{State, Upload, ObjectVersion}
use xsync.Store.Error.{Error, Result, ok, err}
use xsync.Store.Ensures.{Ensures, Ensures-bind}
use xsync.Store.Keys.{Instant, ns_key}
use xsync.Store.Tx.{Tx, no_delta}
use xsync.Store.Counters.{apply}
use xsync.Store.Policy.{Policy}
use xsync.Store.Delete.{is_some}
use xsync.Store.Publish.{ObjectMeta, object_of, drop_upload, place, publish_tx}
use xsync.Store.Namespace.{check_file_path, replace_path}
use xsync.Store.Run.{Store, update}
use xsync.Store.Index.Placing.{get-put_self}
use xsync.Store.Handle.{Os, Session, put_file, remove_file, blob_path, mark_tx, mark_upload}
use xsync.Store.Handle.Closing.{
  fail_upload, publish_update, put_upload, move_and_publish, hash_and_move, finalize,
}
use xsync.Store.Recover.{publish_moved, recover_finalizing}
use xsync.Store.Recover.Uploads.{place-uploads, replace_path-uploads}

-- What becomes of an upload that was being published: it leaves the uploads, or it FAILED.
abbrev pub IsAtRest : Option Upload → Type 0
IsAtRest none = Unit {0}
IsAtRest (some u) = u.state ≡ State.failed

module _ ⦃bolt : Bolt⦄ where
  open bolt use {Bucket, get, put, delete, sequence, next_sequence}

  -- From `b` to `c` the upload of the id comes to rest, and no other changes.
  pub record Settles (id : Bytes) (b c : Bucket Upload) : Type 0 where
    pub others : (j : Bytes) → bytes_eq id j ≡ false → get c j ≡ get b j
    pub own : IsAtRest (get c id)

  Settles-put :
      (b : Bucket Upload) (u : Upload) → u.state ≡ State.failed → Settles u.id b (put b u.id u)
  Settles-put b u rest = record {
    others = λ j ne. simp (get-put, ne);
    own = subst IsAtRest (sym (get-put_self b u.id u)) rest;
  }

  Settles-delete : (b : Bucket Upload) (id : Bytes) → Settles id b (delete b id)
  Settles-delete b id = record {
    others = λ j ne. simp (get-delete, ne);
    own =
        let gone : get (delete b id) id ≡ none =
          ground (arith, bytes_eq_iff id id, get-delete b id id) in
        subst IsAtRest (sym gone) tt;
  }

  -- Writes of the same upload before do not matter.
  Settles-after :
      (b c : Bucket Upload) (u : Upload) → Settles u.id (put b u.id u) c → Settles u.id b c
  Settles-after b c u h = record {
    others = λ j ne. h.others j ne ∙ simp (get-put, ne);
    own = h.own;
  }

  drop_upload-Settles :
      (tx : Tx Bucket) (u : Upload) → Settles u.id tx.uploads (drop_upload tx u).uploads
  unfolding drop_upload
  drop_upload-Settles tx u = elim (Option-cases (get tx.uploads u.id)) [
    | inl e ↦ rw (e) (record { others = λ j ne. refl; own = subst IsAtRest (sym e) tt })
    | inr (w, e) ↦ rw (e) (Settles-delete tx.uploads u.id)
  ]

  publish_tx-Settles :
      (pol : Policy) (now : Instant) (tx : Tx Bucket) (u : Upload) (blob digest : Bytes) (size : ℕ)
      (meta : Option ObjectMeta)
      → Ensures
          (λ (r : Tx Bucket × Option ObjectVersion). Settles u.id tx.uploads r.0.uploads)
          (publish_tx pol now tx u blob digest size meta)
  unfolding publish_tx
  publish_tx-Settles pol now tx u blob digest size meta =
      let P : Tx Bucket × Option ObjectVersion → Type 0 =
        (λ r. Settles u.id tx.uploads r.0.uploads) in
      if_intro (Ensures P) (is_some (get tx.objects u.id)) (λ _. drop_upload-Settles tx u)
        (λ _. Ensures-bind P (check_file_path tx.db u.tenant u.path) _ (λ _ _.
          let numbered : Tx Bucket = record tx {
            db = record tx.db { versions = next_sequence tx.versions };
          } in
          let o = object_of u blob digest size (sequence numbered.versions) now meta in
          let replaced : Tx Bucket × Option ObjectVersion =
            replace_path now numbered u.tenant u.path pol.supersede (codes "superseded") in
          let placed : Tx Bucket = place pol now replaced.0 o none in
          let named : Tx Bucket = record placed {
            db = record placed.db {
              namespace = put placed.namespace (ns_key u.tenant u.path) u.id;
            };
          } in
          subst (λ b. Settles u.id b (drop_upload named u).uploads)
            (place-uploads pol now replaced.0 o none
              ∙ replace_path-uploads now numbered u.tenant u.path pol.supersede
                  (codes "superseded"))
            (drop_upload-Settles named u)))

  abbrev pub uploads_of : Session → Bucket Upload
  uploads_of s = s.store.db.uploads

  -- A publication that fails has changed nothing.
  abbrev Publishes : Bytes → Session → Session × Result (Unit {0}) → Type 0
  Publishes id s (t, ok _) = Settles id (uploads_of s) (uploads_of t)
  Publishes id s (t, err e) = uploads_of t ≡ uploads_of s

  publish_update-Publishes :
      (pol : Policy) (os : Os) (u : Upload) (blob digest : Bytes) (size : ℕ)
      (meta : Option ObjectMeta) (s : Session)
      → Publishes u.id s (publish_update pol os u blob digest size meta s)
  unfolding publish_update update
  publish_update-Publishes pol os u blob digest size meta s =
      go (publish_tx pol os.now opened u blob digest size meta)
        (publish_tx-Settles pol os.now opened u blob digest size meta)
    where
      opened : Tx Bucket
      opened = record { db = s.store.db; delta = no_delta }

      go :
          (r : Result (Tx Bucket × Option ObjectVersion))
          → Ensures
              (λ (x : Tx Bucket × Option ObjectVersion). Settles u.id (uploads_of s) x.0.uploads)
              r
          → Publishes u.id s (
              let y : Store × Result (Option ObjectVersion) = elim r [
                | ok (tx, a) ↦ (record { db = tx.db; count = apply s.store.count tx.delta }, ok a)
                | err e ↦ (s.store, err e)
              ] in
              (record s { store = y.0 }, elim y.1 [ err e ↦ err e | ok _ ↦ ok tt ]))
      go (ok x) h = h
      go (err e) h = refl

  module _ (root : Bytes) (text : Error → Bytes) (sha : Bytes → Bytes)
      (policy : Bytes → Policy) where
    fail_upload-Settles :
        (os : Os) (u : Upload) (e : Error) (s : Session)
        → Settles u.id (uploads_of s) (uploads_of (fail_upload root text sha policy os u e s).0)
    unfolding fail_upload mark_upload mark_tx update
    fail_upload-Settles os u e s =
        Settles-put (uploads_of s)
          (record u { state = State.failed; updated_at = os.now; error = text e }) refl

    -- A publication, and the failure that ends it otherwise.
    or_failed-Settles :
        (os : Os) (u : Upload) (s : Session) (x : Session × Result (Unit {0}))
        → Publishes u.id s x
        → (let y : Session × Result (Unit {0}) = elim x.1 [
          | err e ↦ fail_upload root text sha policy os u e x.0
          | ok _ ↦ (x.0, ok tt)
        ] in
            Settles u.id (uploads_of s) (uploads_of y.0))
    or_failed-Settles os u s (t, ok _) h = h
    or_failed-Settles os u s (t, err e) h =
        subst (λ b. Settles u.id b (uploads_of (fail_upload root text sha policy os u e t).0)) h
          (fail_upload-Settles os u e t)

    -- A call that brings the upload to rest.
    abbrev Rests : Bytes → Session → Session × Result (Unit {0}) → Type 0
    Rests id s x = Settles id (uploads_of s) (uploads_of x.0)

    publish_moved-Settles :
        (os : Os) (u : Upload) (s : Session)
        → Rests u.id s (publish_moved root text sha policy os u s)
    unfolding publish_moved
    publish_moved-Settles os u s = elim (Option-cases (s.disk (blob_path root u.tenant u.id))) [
      | inl e ↦ rw (e, publish_moved) (fail_upload-Settles os u Error.other s)
      | inr (content, e) ↦
          rw (e, publish_moved)
            (if_intro (Rests u.id s) os.hash_ok
              (λ _.
                or_failed-Settles os u s
                  (publish_update (policy u.tenant) os u (blob_path root u.tenant u.id)
                    (sha content) (length content) none s)
                  (publish_update-Publishes (policy u.tenant) os u (blob_path root u.tenant u.id)
                    (sha content) (length content) none s))
              (λ _. fail_upload-Settles os u Error.other s))
    ]

    move_and_publish-Settles :
        (os : Os) (u : Upload) (content digest : Bytes) (size : ℕ) (meta : Option ObjectMeta)
        (s : Session)
        → Rests u.id s (move_and_publish root text sha policy os u content digest size meta s)
    unfolding move_and_publish
    move_and_publish-Settles os u content digest size meta s =
        let blob = blob_path root u.tenant u.id in
        let moved : Session = record s {
          disk = put_file (remove_file s.disk u.staging_path) blob content;
        } in
        if_intro (Rests u.id s) (not (os.mkdir_ok && os.rename_ok))
          (λ _. fail_upload-Settles os u Error.other s)
          (λ _.
            if_intro (Rests u.id s) (not os.sync_dir_ok)
              (λ _. fail_upload-Settles os u Error.other moved)
              (λ _.
                or_failed-Settles os u s
                  (publish_update (policy u.tenant) os u blob digest size meta moved)
                  (publish_update-Publishes (policy u.tenant) os u blob digest size meta moved)))

    hash_and_move-Settles :
        (os : Os) (u : Upload) (pre : Option Bytes) (meta : Option ObjectMeta) (content : Bytes)
        (s : Session)
        → Rests u.id s (hash_and_move root text sha policy os u pre meta content s)
    unfolding hash_and_move
    hash_and_move-Settles os u none meta content s =
        if_intro (Rests u.id s) os.hash_ok
          (λ _. move_and_publish-Settles os u content (sha content) (length content) meta s)
          (λ _. fail_upload-Settles os u Error.other s)
    hash_and_move-Settles os u (some fed) meta content s =
        move_and_publish-Settles os u content (sha fed) (length content) meta s

    finalize-Settles :
        (os : Os) (u : Upload) (pre : Option Bytes) (meta : Option ObjectMeta) (s : Session)
        → Rests u.id s (finalize root text sha policy os u pre meta s)
    unfolding finalize put_upload update
    finalize-Settles os u pre meta s =
        let u' : Upload = record u { state = State.finalizing; updated_at = os.now } in
        let s' : Session = put_upload u' s in
        elim (Option-cases (s.disk u.staging_path)) [
          | inl e ↦
              rw (e, finalize)
                (Settles-after (uploads_of s) _ u' (fail_upload-Settles os u' Error.other s'))
          | inr (content, e) ↦
              rw (e, finalize)
                (Settles-after (uploads_of s) _ u'
                  (hash_and_move-Settles os u' pre meta content s'))
        ]

    pub recover_finalizing-Settles :
        (os : Os) (u : Upload) (s : Session)
        → Rests u.id s (recover_finalizing root text sha policy os u s)
    unfolding recover_finalizing
    recover_finalizing-Settles os u s =
        if_intro (Rests u.id s) (os.stat_ok && is_some (s.disk u.staging_path))
          (λ _. finalize-Settles os u none none s) (λ _. publish_moved-Settles os u s)
