-- ===== src/Store/Handle/Invariant.antt =====
-- What an upload handle of internal/store/upload.go keeps about its staging file.
use xsync.Prelude.{
  ℕ, ◌≡◌, ◌⊎◌, refl, ◌∙◌, ap, Bool, true, false, not, ◌&&◌, Option, none, some, [], ◌==◌, if_intro,
  inl, inr, Option-cases, length, arith,
}
use xsync.Prelude.Bytes.{Bytes, bytes_eq_iff}
use xsync.Bolt.{Bolt}
use xsync.Model.{Upload, ObjectVersion}
use xsync.Upload.Coverage.{Coverage, add}
use xsync.Upload.Coverage.Normal.{add-IsNormal}
use xsync.Upload.Coverage.Contents.{covered-add}
use xsync.Upload.Hasher.{StreamHasher, new_stream_hasher}
use xsync.Upload.File.{byte_at_past}
use xsync.Upload.Tracking.{Stage, Tracks}
use xsync.Upload.Tracking.Contents.{fresh-Tracks}
use xsync.Store.Error.{Error, Result, ok, err}
use xsync.Store.Delete.{is_some}
use xsync.Store.Run.{Store, update}
use xsync.Store.Handle.{
  Base, interrupted, current, Os, Session, Disk, put_file, sent, has_room, find_exact, find_larger,
  first_some, adopt_tx, staging_path, start_fresh, open_partial, adopt_interrupted, copy_blob,
  clone_current, adopt, resolve, mark_upload,
}

-- The whole of a file that was inherited counts as data, and is not hashed.
pub inherited-Tracks :
    (content : Bytes)
    → Tracks (record { content = content; cov = add [] 0 (length content); hasher = none })
inherited-Tracks content = record {
  normal = add-IsNormal [] 0 (length content) tt;
  within = λ x e. ground (arith, covered-add [] 0 (length content) x tt);
  gaps = λ x e. byte_at_past content x (ground (arith, covered-add [] 0 (length content) x tt));
  hashed = λ t e. cc (e);
}

pub put_file_self : (d : Disk) (name content : Bytes) → put_file d name content name ≡ some content
unfolding put_file
put_file_self d name content = ground (arith, bytes_eq_iff name name)

abbrev pub stage_of : Bytes → Coverage → Option StreamHasher → Stage
stage_of content cov hasher = record { content = content; cov = cov; hasher = hasher }

-- An open file under its name, with the coverage and the hasher that belong to its contents.
pub record Holds (file : Option Bytes) (name : Bytes) (cov : Coverage)
    (hasher : Option StreamHasher) (disk : Disk) (content : Bytes) : Type 0 where
  pub opened : file ≡ some name
  pub there : disk name ≡ some content
  pub tracks : Tracks (stage_of content cov hasher)

-- The same of a handle that is in use, over the fields that it is about.
pub record Keeps (failed : Option Error) (fatal resolved : Bool) (file : Option Bytes)
    (name : Bytes) (cov : Coverage) (hasher : Option StreamHasher) (disk : Disk) : Type 0 where
  pub holds :
      (fatal ≡ false) ⊎ (failed ≡ none)
      → resolved ≡ true
      → (content : Bytes) × Holds file name cov hasher disk content
  pub idle : resolved ≡ false → cov ≡ []

pub Holds-Keeps :
    {failed : Option Error} {fatal resolved : Bool} {file : Option Bytes} {name : Bytes}
    {cov : Coverage} {hasher : Option StreamHasher} {disk : Disk} (content : Bytes)
    → resolved ≡ true
    → Holds file name cov hasher disk content
    → Keeps failed fatal resolved file name cov hasher disk
Holds-Keeps content r k = record { holds = λ f g. (content, k); idle = λ e. cc (e, r) }

pub sent_all : (n : Option ℕ) (p : Bytes) → is_some n ≡ false → sent n p ≡ p
unfolding sent
sent_all none p e = refl
sent_all (some n) p e = cc (e)

module _ ⦃bolt : Bolt⦄ where
  abbrev pub IsSound : Session → Type 0
  IsSound s =
      Keeps s.h.failed s.h.fatal s.h.resolved s.h.file s.h.upload.staging_path s.h.cov s.h.hasher
        s.disk

  abbrev pub HoldsIn : Session → Bytes → Type 0
  HoldsIn s content = Holds s.h.file s.h.upload.staging_path s.h.cov s.h.hasher s.disk content

  -- After a start that may fail: the handle is sound, or has begun nothing.
  abbrev pub Started : Session × Result (Unit {0}) → Type 0
  Started (s, ok _) = (s.h.resolved ≡ true) × IsSound s
  Started (s, err e) = s.h.resolved ≡ false → s.h.cov ≡ []

  -- A start that is fresh: an open file that is empty.
  pub record IsFresh (s : Session) : Type 0 where
    pub resolved : s.h.resolved ≡ true
    pub cov : s.h.cov ≡ []
    pub hasher : s.h.hasher ≡ some new_stream_hasher
    pub file : s.h.file ≡ some s.h.upload.staging_path
    pub there : s.disk s.h.upload.staging_path ≡ some []

  pub fresh_holds : (s : Session) → IsFresh s → HoldsIn s []
  fresh_holds s f = record {
    opened = f.file;
    there = f.there;
    tracks = rw (f.cov, f.hasher) fresh-Tracks;
  }

  IsFresh-IsSound : (s : Session) → IsFresh s → IsSound s
  IsFresh-IsSound s f = Holds-Keeps [] f.resolved (fresh_holds s f)

  abbrev pub Begun : Session × Result (Unit {0}) → Type 0
  Begun (s, ok _) = IsFresh s
  Begun (s, err e) = s.h.resolved ≡ false → s.h.cov ≡ []

  Begun-Started : (x : Session × Result (Unit {0})) → Begun x → Started x
  Begun-Started (s, ok _) b = (b.resolved, IsFresh-IsSound s b)
  Begun-Started (s, err e) b = b

  module _ (root : Bytes) (text : Error → Bytes) where
    pub start_fresh-Begun :
        (os : Os) (s : Session) → s.h.cov ≡ [] → Begun (start_fresh root text os s)
    unfolding start_fresh
    start_fresh-Begun os s c = elim (Option-cases os.random_id) [
      | inl e ↦ rw (e, start_fresh) (λ _. c)
      | inr (id, e) ↦
          let stage = staging_path root s.h.tenant id in
          rw (e, start_fresh)
            (if_intro Begun (not (os.mkdir_ok && (os.create_ok && not (is_some (s.disk stage)))))
              (λ _ _. c)
              (λ _. record {
                resolved = refl;
                cov = c;
                hasher = refl;
                file = refl;
                there = put_file_self s.disk stage [];
              }))
    ]

    pub start_fresh-Started :
        (os : Os) (s : Session) → s.h.cov ≡ [] → Started (start_fresh root text os s)
    start_fresh-Started os s c =
        Begun-Started (start_fresh root text os s) (start_fresh-Begun os s c)

    open_partial-Started :
        (os : Os) (u : Upload) (s : Session)
        → s.h.cov ≡ []
        → Started (open_partial root text os u s)
    unfolding open_partial mark_upload
    open_partial-Started os u s c = elim (Option-cases (s.disk u.staging_path)) [
      | inl e ↦ rw (e, open_partial) (λ _. c)
      | inr (content, e) ↦
          rw (e, open_partial)
            (if_intro Started (os.open_ok && os.stat_ok)
              (λ _. (
                refl,
                Holds-Keeps content refl
                    (record { opened = refl; there = e; tracks = rw c (inherited-Tracks content) }),
              ))
              (λ _ _. c))
    ]

    adopt_interrupted-Started :
        (os : Os) (u : Upload) (s : Session)
        → s.h.cov ≡ []
        → Started (adopt_interrupted root text os u s)
    unfolding adopt_interrupted
    adopt_interrupted-Started os u s c = go (update s.store (adopt_tx os.now s.h.protocol u.id))
      where
        go :
            (x : Store × Result (Option Upload))
            → Started (elim x.1 [
              | err e ↦ (record s { store = x.0 }, err e)
              | ok none ↦ (record s { store = x.0 }, err Error.conflict)
              | ok (some taken) ↦ open_partial root text os taken (record s { store = x.0 })
            ])
        go (store, err e) = λ _. c
        go (store, ok none) = λ _. c
        go (store, ok (some taken)) = open_partial-Started os taken (record s { store = store }) c

    copy_blob-Started :
        (os : Os) (blob : Bytes) (s : Session) → IsFresh s → Started (copy_blob root text os blob s)
    unfolding copy_blob sent
    copy_blob-Started os blob s f = elim (Option-cases (s.disk blob)) [
      | inl e ↦ rw (e, copy_blob) (λ r. cc)
      | inr (content, e) ↦
          rw (e, copy_blob)
            (if_intro Started (not os.open_ok) (λ _ r. cc)
              (λ _.
                if_intro Started (is_some os.copied) (λ _ r. cc)
                  (λ whole. (
                    f.resolved,
                    Holds-Keeps content f.resolved (record {
                      opened = f.file;
                      there =
                          put_file_self s.disk s.h.upload.staging_path (sent os.copied content)
                          ∙ ap some (sent_all os.copied content whole);
                      tracks = rw f.cov (inherited-Tracks content);
                    }),
                  ))))
    ]

    clone_current-Started :
        (os : Os) (o : ObjectVersion) (s : Session)
        → s.h.cov ≡ []
        → Started (clone_current root text os o s)
    unfolding clone_current
    clone_current-Started os o s c =
        if_intro Started (not (has_room os o.size)) (λ _ _. c)
          (λ _.
            go (start_fresh root text os (record s { h = record s.h { reserved = true } }))
              (start_fresh-Begun os (record s { h = record s.h { reserved = true } }) c))
      where
        go :
            (x : Session × Result (Unit {0}))
            → Begun x
            → Started
                (elim x.1 [ err e ↦ (x.0, err e) | ok _ ↦ copy_blob root text os o.blob_path x.0 ])
        go (s', err e) b = b
        go (s', ok _) b = copy_blob-Started os o.blob_path s' b

    pub adopt-Started :
        (os : Os) (b : Base) (s : Session) → s.h.cov ≡ [] → Started (adopt root text os b s)
    unfolding adopt
    adopt-Started os (interrupted u size) s c = adopt_interrupted-Started os u s c
    adopt-Started os (current o size) s c = clone_current-Started os o s c

    deferred-Started :
        (x : Session × Result (Unit {0}))
        → Started x
        → Started (elim x.1 [
          | err e ↦ (x.0, err e)
          | ok _ ↦ (record x.0 { h = record x.0.h { fill_prefix = true } }, ok tt)
        ])
    deferred-Started (s, err e) b = b
    deferred-Started (s, ok _) b = b

    pub resolve-Started :
        (os : Os) (off : ℕ) (s : Session) → s.h.cov ≡ [] → Started (resolve root text os off s)
    unfolding resolve
    resolve-Started os off s c =
        if_intro Started (off == 0) (λ _. start_fresh-Started os s c)
          (λ _. go (first_some (find_exact s.h.candidates off) (find_larger s.h.candidates off)))
      where
        go :
            (x : Option Base)
            → Started (elim x [
              | some b ↦ adopt root text os b s
              | none ↦
                  let (s', r) = start_fresh root text os s in
                  elim r [
                    | err e ↦ (s', err e)
                    | ok _ ↦ (record s' { h = record s'.h { fill_prefix = true } }, ok tt)
                  ]
            ])
        go (some b) = adopt-Started os b s c
        go none = deferred-Started (start_fresh root text os s) (start_fresh-Started os s c)
