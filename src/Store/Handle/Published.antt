-- ===== src/Store/Handle/Published.antt =====
-- How `finalize` and `publish` of internal/store/upload.go bring a complete file into the catalog.
use xsync.Prelude.{
  ℕ, ◌≡◌, refl, sym, subst, ◌∙◌, ap, not, ◌&&◌, Option, none, some, if_intro, length, arith,
}
use xsync.Prelude.Bytes.{Bytes}
use xsync.Bolt.{Bolt}
use xsync.Model.{Upload, ObjectVersion, State}
use xsync.Upload.Hasher.{StreamHasher, byte_at}
use xsync.Upload.Hasher.Chunks.{IsFaithful}
use xsync.Upload.Hasher.Digest.{IsFaithful-result}
use xsync.Upload.File.{read-byte_at}
use xsync.Store.Error.{Error, Result, ok, err}
use xsync.Store.Ensures.{Ensures}
use xsync.Store.Tx.{Tx, Db, no_delta}
use xsync.Store.Counters.{apply}
use xsync.Store.Policy.{Policy}
use xsync.Store.Publish.{ObjectMeta, publish_tx}
use xsync.Store.Run.{Store, update}
use xsync.Store.Handle.{UploadHandle, Os, Session, Disk, put_file, remove_file, blob_path}
use xsync.Store.Handle.Closing.{
  precomputed, publish_update, put_upload, fail_upload, move_and_publish, hash_and_move, finalize,
  publish_staged,
}
use xsync.Store.Handle.Invariant.{put_file_self}
use xsync.Store.Handle.Placed.{PublishedIn, publish_tx-Shows}

-- What the hasher of a whole file gives is the file.
precomputed-eq :
    (hasher : Option StreamHasher) (base : ℕ) (content fed : Bytes)
    → ((t : StreamHasher) → hasher ≡ some t → IsFaithful (byte_at content, t))
    → precomputed hasher base (length content) ≡ some fed
    → fed ≡ content
unfolding precomputed
precomputed-eq none base content fed h e = cc (e)
precomputed-eq (some t) base content fed h e =
    IsFaithful-result (byte_at content) t (length content) fed (h t refl) (ground arith)
    ∙ read-byte_at content

module _ ⦃bolt : Bolt⦄ where
  open bolt use {Bucket, get}

  -- A call that succeeds leaves a session with `P`.
  abbrev pub OnSuccess : (Session → Type 0) → Session × Result (Unit {0}) → Type 0
  OnSuccess P (s, ok _) = P s
  OnSuccess P (s, err e) = Unit

  pub OnSuccess-ok :
      (P : Session → Type 0) (x : Session × Result (Unit {0})) → x.1 ≡ ok tt → OnSuccess P x → P x.0
  OnSuccess-ok P (s, ok _) e p = p
  OnSuccess-ok P (s, err f) e p = cc (e)

  pub OnSuccess-map :
      (P Q : Session → Type 0)
      → ((t : Session) → P t → Q t)
      → (x : Session × Result (Unit {0})) → OnSuccess P x
      → OnSuccess Q x
  OnSuccess-map P Q f (s, ok _) p = f s p
  OnSuccess-map P Q f (s, err e) p = tt

  -- A write transaction that succeeds leaves the catalog that its closure made.
  update-Shows :
      {A : Type 0} (P : Db Bucket → Type 0) (s : Store) (fn : Tx Bucket → Result (Tx Bucket × A))
      (a : A)
      → Ensures (λ (r : Tx Bucket × A). P r.0.db) (fn (record { db = s.db; delta = no_delta }))
      → (update s fn).1 ≡ ok a
      → P (update s fn).0.db
  unfolding update
  update-Shows {A} P s fn a h e = go (fn (record { db = s.db; delta = no_delta })) h e
    where
      go :
          (r : Result (Tx Bucket × A))
          → Ensures (λ (x : Tx Bucket × A). P x.0.db) r
          → (let y : Store × Result A = elim r [
            | ok (tx, b) ↦ (record { db = tx.db; count = apply s.count tx.delta }, ok b)
            | err f ↦ (s, err f)
          ] in
              y.1)
            ≡ ok a
          → P (
              let y : Store × Result A = elim r [
                | ok (tx, b) ↦ (record { db = tx.db; count = apply s.count tx.delta }, ok b)
                | err f ↦ (s, err f)
              ] in
              y.0.db)
      go (ok (tx, b)) p q = p
      go (err f) p q = cc (q)

  -- A blob and its catalog entry.
  pub record IsStored (root : Bytes) (sha : Bytes → Bytes) (u : Upload) (content : Bytes)
      (disk : Disk) (db : Db Bucket) : Type 0 where
    pub blob : disk (blob_path root u.tenant u.id) ≡ some content
    pub entry : PublishedIn u (blob_path root u.tenant u.id) (sha content) (length content) db

  module _ (root : Bytes) (text : Error → Bytes) (sha : Bytes → Bytes)
      (policy : Bytes → Policy) where
    -- The state of the upload does not matter.
    restated :
        (u : Upload) (state : State) (at : ℕ) (content : Bytes) (disk : Disk) (db : Db Bucket)
        → IsStored root sha (record u { state = state; updated_at = at }) content disk db
        → IsStored root sha u content disk db
    restated u state at content disk db i =
        let e = i.entry in
        record {
          blob = i.blob;
          entry = record {
            object = e.object;
            stored = e.stored;
            named = e.named;
            of_tenant = e.of_tenant;
            of_path = e.of_path;
            has_blob = e.has_blob;
            has_size = e.has_size;
            has_digest = e.has_digest;
          };
        }

    -- Stored, and the handle is `h`, if the upload was not in the catalog before.
    abbrev pub Kept : UploadHandle → Upload → Bytes → Store → Session → Type 0
    Kept h u content before t =
        (t.h ≡ h)
        × (get before.db.objects u.id ≡ none → IsStored root sha u content t.disk t.store.db)

    pub fail_upload-OnSuccess :
        (P : Session → Type 0) (os : Os) (u : Upload) (e : Error) (s : Session)
        → OnSuccess P (fail_upload root text sha policy os u e s)
    unfolding fail_upload
    fail_upload-OnSuccess P os u e s = tt

    pub publish_update-Shows :
        (pol : Policy) (os : Os) (u : Upload) (content : Bytes) (meta : Option ObjectMeta)
        (s : Session)
        → s.disk (blob_path root u.tenant u.id) ≡ some content
        → OnSuccess (Kept s.h u content s.store) (
            publish_update pol os u
              (blob_path root u.tenant u.id)
              (sha content)
              (length content)
              meta
              s)
    unfolding publish_update
    publish_update-Shows pol os u content meta s d = go (update s.store fn) refl
      where
        fn : Tx Bucket → Result (Tx Bucket × Option ObjectVersion)
        fn tx =
            publish_tx pol os.now tx u (blob_path root u.tenant u.id) (sha content) (length content)
              meta

        go :
            (x : Store × Result (Option ObjectVersion))
            → update s.store fn ≡ x
            → OnSuccess
                (Kept s.h u content s.store)
                (record s { store = x.0 }, elim x.1 [ err e ↦ err e | ok _ ↦ ok tt ])
        go (store, err e) q = tt
        go (store, ok v) q = (
          refl,
          λ new. record {
            blob = d;
            entry =
                subst
                  (λ (y : Store × Result (Option ObjectVersion)).
                    PublishedIn u (blob_path root u.tenant u.id) (sha content) (length content)
                      y.0.db)
                  q
                  (update-Shows
                    (PublishedIn u (blob_path root u.tenant u.id) (sha content) (length content))
                    s.store fn v
                    (publish_tx-Shows pol os.now (record { db = s.store.db; delta = no_delta }) u
                      (blob_path root u.tenant u.id) (sha content) (length content) meta new)
                    (ap (λ (y : Store × Result (Option ObjectVersion)). y.1) q));
          },
        )

    move_and_publish-Shows :
        (os : Os) (u : Upload) (content digest : Bytes) (meta : Option ObjectMeta) (s : Session)
        → digest ≡ sha content
        → OnSuccess
            (Kept s.h u content s.store)
            (move_and_publish root text sha policy os u content digest (length content) meta s)
    unfolding move_and_publish
    move_and_publish-Shows os u content digest meta s d =
        let P = Kept s.h u content s.store in
        let blob = blob_path root u.tenant u.id in
        let moved : Session = record s {
          disk = put_file (remove_file s.disk u.staging_path) blob content;
        } in
        if_intro (OnSuccess P) (not (os.mkdir_ok && os.rename_ok))
          (λ _. fail_upload-OnSuccess P os u Error.other s)
          (λ _.
            if_intro (OnSuccess P) (not os.sync_dir_ok)
              (λ _. fail_upload-OnSuccess P os u Error.other moved)
              (λ _.
                finish
                  (publish_update (policy u.tenant) os u blob digest (length content) meta moved)
                  (subst
                    (λ g.
                      OnSuccess P
                        (publish_update (policy u.tenant) os u blob g (length content) meta moved))
                    (sym d)
                    (publish_update-Shows (policy u.tenant) os u content meta moved
                      (put_file_self (remove_file s.disk u.staging_path) blob content)))))
      where
        finish :
            (x : Session × Result (Unit {0}))
            → OnSuccess (Kept s.h u content s.store) x
            → OnSuccess (Kept s.h u content s.store) (elim x.1 [
              | err e ↦ fail_upload root text sha policy os u e x.0
              | ok _ ↦ (x.0, ok tt)
            ])
        finish (t, err e) p = fail_upload-OnSuccess (Kept s.h u content s.store) os u e t
        finish (t, ok _) p = p

    hash_and_move-Shows :
        (os : Os) (u : Upload) (content : Bytes) (pre : Option Bytes) (meta : Option ObjectMeta)
        (s : Session)
        → ((fed : Bytes) → pre ≡ some fed → fed ≡ content)
        → OnSuccess
            (Kept s.h u content s.store)
            (hash_and_move root text sha policy os u pre meta content s)
    unfolding hash_and_move
    hash_and_move-Shows os u content none meta s h =
        if_intro (OnSuccess (Kept s.h u content s.store)) os.hash_ok
          (λ _. move_and_publish-Shows os u content (sha content) meta s refl)
          (λ _. fail_upload-OnSuccess (Kept s.h u content s.store) os u Error.other s)
    hash_and_move-Shows os u content (some fed) meta s h =
        move_and_publish-Shows os u content (sha fed) meta s (ap sha (h fed refl))

    pub finalize-Shows :
        (os : Os) (u : Upload) (content : Bytes) (pre : Option Bytes) (meta : Option ObjectMeta)
        (s : Session)
        → s.disk u.staging_path ≡ some content
        → ((fed : Bytes) → pre ≡ some fed → fed ≡ content)
        → OnSuccess (Kept s.h u content s.store) (finalize root text sha policy os u pre meta s)
    unfolding finalize put_upload update
    finalize-Shows os u content pre meta s d h =
        let u' : Upload = record u { state = State.finalizing; updated_at = os.now } in
        let s' : Session = put_upload u' s in
        rw (d, finalize)
          (OnSuccess-map (Kept s'.h u' content s'.store) (Kept s.h u content s.store)
            (λ t k. (
              k.0,
              λ new.
                  let i = k.1 new in restated u State.finalizing os.now content t.disk t.store.db i,
            ))
            (hash_and_move root text sha policy os u' pre meta content s')
            (hash_and_move-Shows os u' content pre meta s' h))

    -- The handle without its file.
    abbrev pub closed_file : UploadHandle → UploadHandle
    closed_file h = record h { file = none }

    pub publish_staged-Shows :
        (os : Os) (content : Bytes) (s : Session)
        → s.disk s.h.upload.staging_path ≡ some content
        → ((t : StreamHasher) → s.h.hasher ≡ some t → IsFaithful (byte_at content, t))
        → OnSuccess
            (Kept (closed_file s.h) s.h.upload content s.store)
            (publish_staged root text sha policy os s)
    unfolding publish_staged
    publish_staged-Shows os content s d h =
        let P = Kept (closed_file s.h) s.h.upload content s.store in
        let pre = precomputed s.h.hasher s.h.base_size (length content) in
        rw (d, publish_staged)
          (if_intro (OnSuccess P) (not (os.stat_ok && os.sync_ok))
            (λ _. fail_upload-OnSuccess P os s.h.upload Error.other s)
            (λ _.
              if_intro (OnSuccess P) (not os.close_ok)
                (λ _. fail_upload-OnSuccess P os s.h.upload Error.other s)
                (λ _.
                  finalize-Shows os s.h.upload content pre s.h.meta
                    (record s { h = closed_file s.h }) d
                    (λ fed e. precomputed-eq s.h.hasher s.h.base_size content fed h e))))
