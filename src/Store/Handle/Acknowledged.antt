-- ===== src/Store/Handle/Acknowledged.antt =====
-- What an uploader is told by `Close` of internal/store/upload.go, and what the store then has.
use xsync.Prelude.{
  ℕ, ◌<◌, ◌≡◌, ◌≢◌, ◌⊎◌, inl, inr, refl, sym, subst, ◌∙◌, ap, true, false, not, ◌&&◌, if◌then◌else◌,
  none, some, List, [], ◌∷◌, if_intro, length, Bool-cases, Option-cases,
}
use xsync.Prelude.Bytes.{Bytes}
use xsync.Prelude.Int.{pos, ◌-ℤ◌}
use xsync.Bolt.{Bolt}
use xsync.Model.{Upload}
use xsync.Upload.Coverage.Contents.{covered}
use xsync.Upload.Hasher.{byte_at}
use xsync.Store.Error.{Error, Result, ok, err}
use xsync.Store.Delete.{is_some}
use xsync.Store.Policy.{Policy}
use xsync.Store.Run.{Store, update}
use xsync.Store.Handle.{UploadHandle, Base, Os, Session, start_tx, staging_path, start_fresh}
use xsync.Store.Handle.Closing.{
  is_empty, is_incomplete, settle, interrupt_handle, fail_upload, publish_staged,
  settle_and_publish, close_unbroken, close_open, close, let_go,
}
use xsync.Store.Handle.Invariant.{stage_of, Begun, fresh_holds, IsSound, HoldsIn, start_fresh-Begun}
use xsync.Store.Handle.Published.{
  OnSuccess, OnSuccess-ok, OnSuccess-map, IsStored, Kept, fail_upload-OnSuccess, closed_file,
  publish_staged-Shows,
}
use xsync.Store.Handle.Settled.{IsSettled, settle-Shows}
use xsync.Store.Handle.Running.{Live-IsSound}
use xsync.Store.Handle.Written.{Knows}
use xsync.Store.Handle.Known.{known_byte, Live-Knows}
use xsync.Upload.Tracking.{Sparse}
use xsync.Store.Handle.Steps.{Live}

module _ ⦃bolt : Bolt⦄ (root : Bytes) (text : Error → Bytes) (sha : Bytes → Bytes)
    (policy : Bytes → Policy) where
  open bolt use {get}

  -- After an upload from `s`, whose file has the bytes `old`: a blob that is in the catalog, if its
  -- id was not before, with no gap, and with all that was written.
  record IsPublic (s : Session) (old : Bytes) (t : Session) : Type 0 where
    pub content : Bytes
    pub stored :
        get s.store.db.objects t.h.upload.id ≡ none
        → IsStored root sha t.h.upload content t.disk t.store.db
    pub gapless : (x : ℕ) → x < length content → covered t.h.cov x ≡ true
    pub within : (x : ℕ) → covered s.h.cov x ≡ true → x < length content
    pub kept : (x : ℕ) → covered s.h.cov x ≡ true → byte_at content x ≡ byte_at old x

  published-IsPublic :
      (s : Session) (old : Bytes) (s' t : Session) (f : IsSettled s old s')
      → Kept root text sha policy
          (closed_file root text sha policy s'.h)
          s'.h.upload
          f.content
          s'.store
          t
      → IsPublic s old t
  published-IsPublic s old s' t f k =
      let same_upload : t.h.upload ≡ s'.h.upload = ap (λ (h : UploadHandle). h.upload) k.0 in
      let same_cov : t.h.cov ≡ s'.h.cov = ap (λ (h : UploadHandle). h.cov) k.0 in
      record {
        content = f.content;
        stored = λ new.
            subst (λ u. IsStored root sha u f.content t.disk t.store.db) (sym same_upload)
              (k.1 (
                ap (λ (a : Store). get a.db.objects s'.h.upload.id) f.store
                ∙ ap (λ (u : Upload). get s.store.db.objects u.id) (sym same_upload)
                ∙ new));
        gapless = λ x l. ap (λ c. covered c x) same_cov ∙ f.gapless x l;
        within = f.within;
        kept = f.kept;
      }

  settle_and_publish-Shows :
      (os : Os) (old : Bytes) (s : Session)
      → HoldsIn s old
      → OnSuccess (IsPublic s old) (settle_and_publish root text sha policy os s)
  unfolding settle_and_publish
  settle_and_publish-Shows os old s h = go (settle os s) (settle-Shows os old s h)
    where
      go :
          (x : Session × Result (Unit {0}))
          → OnSuccess (IsSettled s old) x
          → OnSuccess (IsPublic s old) (elim x.1 [
            | err e ↦
                if is_incomplete e
                then interrupt_handle text os e x.0
                else fail_upload root text sha policy os x.0.h.upload e x.0
            | ok _ ↦ publish_staged root text sha policy os x.0
          ])
      go (t, err e) p =
          if_intro (OnSuccess (IsPublic s old)) (is_incomplete e) (λ _. tt)
            (λ _. fail_upload-OnSuccess root text sha policy (IsPublic s old) os t.h.upload e t)
      go (t, ok _) f =
          OnSuccess-map
            (Kept root text sha policy (closed_file root text sha policy t.h) t.h.upload f.content
              t.store)
            (IsPublic s old) (λ u k. published-IsPublic s old t u f k)
            (publish_staged root text sha policy os t)
            (publish_staged-Shows root text sha policy os f.content t
              (ap (λ (u : Upload). t.disk u.staging_path) f.upload ∙ f.there) f.hashed)

  start_fresh-objects :
      (os : Os) (s : Session)
      → OnSuccess (λ t. t.store.db.objects ≡ s.store.db.objects) (start_fresh root text os s)
  unfolding start_fresh start_tx update
  start_fresh-objects os s = elim (Option-cases os.random_id) [
    | inl e ↦ rw (e, start_fresh) tt
    | inr (id, e) ↦
        rw (e, start_fresh)
          (if_intro (OnSuccess (λ t. t.store.db.objects ≡ s.store.db.objects))
            (not (
              os.mkdir_ok
              && (os.create_ok && not (is_some (s.disk (staging_path root s.h.tenant id))))))
            (λ _. tt) (λ _. refl))
  ]

  -- A handle that was opened without truncating and never written to leaves what is there, any other
  -- has its file in the catalog.
  abbrev Promised : Session → Session → Type 0
  Promised s t =
      ((s.h.resolved ≡ false) × (s.h.candidates ≢ []) × (t.store ≡ s.store) × (t.disk ≡ s.disk))
      ⊎ ((old : Bytes) × (s.h.resolved ≡ true → s.disk s.h.upload.staging_path ≡ some old)
          × IsPublic s old t)

  close_unbroken-Shows :
      (os : Os) (s : Session)
      → s.h.failed ≡ none
      → IsSound s
      → OnSuccess (Promised s) (close_unbroken root text sha policy os s)
  unfolding close_unbroken
  close_unbroken-Shows os s n v =
      if_intro (OnSuccess (Promised s)) s.h.resolved
        (λ r.
          let (old, h) = v.holds (inr n) r in
          OnSuccess-map (IsPublic s old) (Promised s) (λ t p. inr (old, (λ _. h.there), p))
            (settle_and_publish root text sha policy os s) (settle_and_publish-Shows os old s h))
        (λ r.
          if_intro (OnSuccess (Promised s)) (not (is_empty s.h.candidates))
            (λ some. inl (r, not_empty s.h.candidates some, refl, refl))
            (λ _.
              go r (start_fresh root text os s) (start_fresh-Begun root text os s (v.idle r))
                (start_fresh-objects os s)))
    where
      not_empty : (l : List Base) → not (is_empty l) ≡ true → l ≢ []
      not_empty [] e q = cc (e)
      not_empty (x ∷ l) e q = cc (q)

      from_fresh :
          (r : s.h.resolved ≡ false) (s' t : Session)
          → s'.store.db.objects ≡ s.store.db.objects
          → IsPublic s' [] t
          → Promised s t
      from_fresh r s' t same p = inr (
        [],
        (λ e. cc (e, r)),
        record {
          content = p.content;
          stored = λ new. p.stored (ap (λ b. get b t.h.upload.id) same ∙ new);
          gapless = p.gapless;
          within = λ x e. cc (e, ap (λ c. covered c x) (v.idle r));
          kept = λ x e. cc (e, ap (λ c. covered c x) (v.idle r));
        },
      )

      go :
          (r : s.h.resolved ≡ false) (x : Session × Result (Unit {0}))
          → Begun x
          → OnSuccess (λ t. t.store.db.objects ≡ s.store.db.objects) x
          → OnSuccess (Promised s) (elim x.1 [
            | err e ↦ (x.0, err e)
            | ok _ ↦ settle_and_publish root text sha policy os x.0
          ])
      go r (s', err e) b o = tt
      go r (s', ok _) b o =
          OnSuccess-map (IsPublic s' []) (Promised s) (λ t p. from_fresh r s' t o p)
            (settle_and_publish root text sha policy os s')
            (settle_and_publish-Shows os [] s' (fresh_holds s' b))

  leave-Promised :
      (s t : Session)
      → Promised (record s { h = record s.h { closed = true } }) t
      → Promised s (record t { inflight = t.inflight -ℤ pos 1; h = let_go t.h })
  unfolding let_go
  leave-Promised s t (inl kept) = inl kept
  leave-Promised s t (inr (old, there, p)) = inr (
    old,
    there,
    record {
      content = p.content;
      stored = p.stored;
      gapless = p.gapless;
      within = p.within;
      kept = p.kept;
    },
  )

  close_open-Shows :
      (os : Os) (s : Session)
      → IsSound s
      → OnSuccess (Promised s) (close_open root text sha policy os s)
  unfolding close_open
  close_open-Shows os s v = elim (Option-cases s.h.failed) [
    | inl n ↦ simp (n, close_open) (close_unbroken-Shows os s n v)
    | inr (e, n) ↦ elim (Option-cases s.h.file) [
      | inl f ↦ simp (n, f, close_open) tt
      | inr (name, f) ↦
          simp (n, f, close_open)
            (if_intro (OnSuccess (Promised s)) s.h.fatal
              (λ _. fail_upload-OnSuccess root text sha policy (Promised s) os s.h.upload e s)
              (λ _. tt))
    ]
  ]

  close-Shows :
      (os : Os) (s : Session)
      → IsSound s
      → s.h.closed ≡ false
      → OnSuccess (Promised s) (close root text sha policy os s)
  unfolding close
  close-Shows os s v open_still =
      let s' : Session = record s { h = record s.h { closed = true } } in
      if_intro (OnSuccess (Promised s)) s.h.closed (λ e. cc (e, open_still))
        (λ _. go (close_open root text sha policy os s') (close_open-Shows os s' v))
    where
      go :
          (x : Session × Result (Unit {0}))
          → OnSuccess (Promised (record s { h = record s.h { closed = true } })) x
          → OnSuccess
              (Promised s)
              (record x.0 { inflight = x.0.inflight -ℤ pos 1; h = let_go x.0.h }, x.1)
      go (t, err e) p = tt
      go (t, ok _) p = leave-Promised s t p

  -- Only a handle without a failure is closed without an error.
  all-OnSuccess : {P : Type 0} (x : Session × Result (Unit {0})) → P → OnSuccess (λ _. P) x
  all-OnSuccess (t, ok _) p = p
  all-OnSuccess (t, err e) p = tt

  close_open-failed :
      (P : Type 0) (os : Os) (s : Session)
      → (s.h.failed ≡ none → P)
      → OnSuccess (λ _. P) (close_open root text sha policy os s)
  unfolding close_open
  close_open-failed P os s p = elim (Option-cases s.h.failed) [
    | inl n ↦ all-OnSuccess (close_open root text sha policy os s) (p n)
    | inr (e, n) ↦ elim (Option-cases s.h.file) [
      | inl f ↦ simp (n, f, close_open) tt
      | inr (name, f) ↦
          simp (n, f, close_open)
            (if_intro (OnSuccess (λ _. P)) s.h.fatal
              (λ _. fail_upload-OnSuccess root text sha policy (λ _. P) os s.h.upload e s)
              (λ _. tt))
    ]
  ]

  close-failed :
      (os : Os) (s : Session)
      → s.h.closed ≡ false
      → OnSuccess (λ _. s.h.failed ≡ none) (close root text sha policy os s)
  unfolding close
  close-failed os s open_still =
      let s' : Session = record s { h = record s.h { closed = true } } in
      if_intro (OnSuccess (λ _. s.h.failed ≡ none)) s.h.closed (λ e. cc (e, open_still))
        (λ _.
          go (close_open root text sha policy os s')
            (close_open-failed (s.h.failed ≡ none) os s' (λ n. n)))
    where
      go :
          (x : Session × Result (Unit {0}))
          → OnSuccess (λ _. s.h.failed ≡ none) x
          → OnSuccess
              (λ _. s.h.failed ≡ none)
              (record x.0 { inflight = x.0.inflight -ℤ pos 1; h = let_go x.0.h }, x.1)
      go (t, err e) p = tt
      go (t, ok _) p = p

  -- A blob that is in the catalog, that the coverage at the end counts as data up to its length, and
  -- that has each byte of `f`, and each that counted as data in a staging file of `old`.
  pub record IsDelivered (f : Sparse) (s : Session) (old : Bytes) (t : Session) : Type 0 where
    pub content : Bytes
    pub stored : IsStored root sha t.h.upload content t.disk t.store.db
    pub gapless : (x : ℕ) → x < length content → covered t.h.cov x ≡ true
    pub written : (x b : ℕ) → f x ≡ some b → (x < length content) × (byte_at content x ≡ b)
    pub kept : (x : ℕ) → covered s.h.cov x ≡ true → byte_at content x ≡ byte_at old x

  -- What stands behind an acknowledgement: nothing was to be written and nothing has changed, or the
  -- file is delivered; `old` is the staging file, if there was one.
  abbrev pub Acknowledged : Sparse → Session → Session → Type 0
  Acknowledged f s t =
      ((s.h.resolved ≡ false) × (s.h.candidates ≢ []) × (t.store ≡ s.store) × (t.disk ≡ s.disk))
      ⊎ ((old : Bytes) × ((s.h.resolved ≡ false) ⊎ (s.disk s.h.upload.staging_path ≡ some old))
          × IsDelivered f s old t)

  -- What the client knows is in the blob.
  known_written :
      (f : Sparse) (s : Session) (old : Bytes) (t : Session) (p : IsPublic s old t)
      → s.h.failed ≡ none
      → Knows s f
      → (s.h.resolved ≡ true → s.disk s.h.upload.staging_path ≡ some old)
      → (x b : ℕ) → f x ≡ some b
      → (x < length p.content) × (byte_at p.content x ≡ b)
  known_written f s old t p n k there x b e = elim (Bool-cases s.h.resolved) [
    | inl r ↦
        (let (c, same) =
            known_byte (stage_of old s.h.cov none) x b (k.there (inr n) r old (there r) x b e) in
          (p.within x c, p.kept x c ∙ same))
    | inr r ↦ cc (e, k.unwritten r x)
  ]

  Promised-Acknowledged :
      (f : Sparse) (s t : Session)
      → s.h.failed ≡ none
      → Knows s f
      → get s.store.db.objects t.h.upload.id ≡ none
      → Promised s t
      → Acknowledged f s t
  Promised-Acknowledged f s t n k new (inl kept) = inl kept
  Promised-Acknowledged f s t n k new (inr (old, there, p)) = inr (
    old,
    elim (Bool-cases s.h.resolved) [ inl r ↦ inr (there r) | inr r ↦ inl r ],
    record {
      content = p.content;
      stored = p.stored new;
      gapless = p.gapless;
      written = known_written f s old t p n k there;
      kept = p.kept;
    },
  )

  -- Of a handle that was opened and used in whatever way, and of whatever others did meanwhile: if
  -- `Close` returns no error, and the catalog had no object with the id of the upload, then either
  -- nothing was to be written and all is as it was, or the blob of the upload is in place, and the
  -- catalog has it under the path, with its length and its digest. The blob holds each byte that a
  -- write has reported written and that no truncation has cut off, as it was written last, and each
  -- byte that counted as data in the staging file; the handle's coverage leaves no gap in it.
  pub close-Acknowledged :
      (os : Os) (f : Sparse) (s : Session)
      → Live root text s f
      → s.h.closed ≡ false
      → (close root text sha policy os s).1 ≡ ok tt
      → get s.store.db.objects (close root text sha policy os s).0.h.upload.id ≡ none
      → Acknowledged f s (close root text sha policy os s).0
  close-Acknowledged os f s l open_still e new =
      Promised-Acknowledged f s (close root text sha policy os s).0
        (OnSuccess-ok (λ _. s.h.failed ≡ none) (close root text sha policy os s) e
          (close-failed os s open_still))
        (Live-Knows root text l) new
        (OnSuccess-ok (Promised s) (close root text sha policy os s) e
          (close-Shows os s (Live-IsSound root text l) open_still))
