-- ===== src/Store/Handle/Open.antt =====
-- `OpenUpload`, `BeginInternalUpload`, `baseCandidates` and `newestInterrupted` of
-- internal/store/upload.go.
use xsync.Prelude.{
  Bool, true, false, not, ◌&&◌, Option, none, some, List, [], ◌∷◌, ltb, length, if◌then◌else◌,
}
use xsync.Prelude.Bytes.{Bytes, bytes_eq, has_prefix}
use xsync.Prelude.Int.{ℤ, pos, ◌+ℤ◌}
use xsync.Prelude.Assoc.{Assoc}
use xsync.Bolt.{Bolt}
use xsync.Model.{State, Upload, ObjectVersion}
use xsync.Store.Error.{Error, Result, ok, err, as_invalid_path, guard, ◌>>=◌, ◌>>◌}
use xsync.Store.Path.{clean_path}
use xsync.Store.Keys.{ns_key, upload_path_key}
use xsync.Store.Tx.{Db}
use xsync.Store.Delivery.{state_eq}
use xsync.Store.Namespace.{check_file_path}
use xsync.Store.Policy.{Policy}
use xsync.Store.Calls.{admit_upload_of}
use xsync.Store.Run.{Store}
use xsync.Store.Handle.{
  OpenMode, truncating, resuming, appending, Base, interrupted, current, undecided, UploadHandle,
  Disk, Os, Session, start_fresh, adopt,
}
use xsync.Store.Handle.Closing.{let_go}

-- k[len(prefix):]
unfoldable pub after_prefix : Bytes → Bytes → Bytes
after_prefix k [] = k
after_prefix [] (p ∷ prefix) = []
after_prefix (c ∷ k) (p ∷ prefix) = after_prefix k prefix

newer : Option Upload → Upload → Bool
newer none u = true
newer (some best) u = ltb best.updated_at u.updated_at

abbrev zero_upload : Upload
zero_upload = record {
  id = [];
  tenant = [];
  path = [];
  protocol = [];
  staging_path = [];
  state = State.uploading;
  created_at = 0;
  updated_at = 0;
  error = [];
}

unfoldable pub new_handle : Bytes → Bytes → Bytes → OpenMode → Bool → UploadHandle
new_handle tenant path protocol mode internal = record {
  tenant = tenant;
  path = path;
  protocol = protocol;
  mode = mode;
  unmetered = internal;
  upload = zero_upload;
  file = none;
  resolved = false;
  candidates = [];
  base_size = 0;
  fill_prefix = false;
  append_mode = undecided;
  cov = [];
  hasher = none;
  failed = none;
  fatal = false;
  closed = false;
  release = not internal;
  reserved = false;
  meta = none;
}

-- if u.UpdatedAt.After(cur.CreatedAt) the partial is what the uploader sees.
unfoldable pub candidates_in_order : Option Base → Option ObjectVersion → Bool → List Base
candidates_in_order none none first = []
candidates_in_order none (some o) first = current o o.size ∷ []
candidates_in_order (some b) none first = b ∷ []
candidates_in_order (some b) (some o) first =
    if first then b ∷ current o o.size ∷ [] else current o o.size ∷ b ∷ []

unfoldable pub partial_newer : Option Upload → Option ObjectVersion → Bool
partial_newer (some u) (some o) = ltb o.created_at u.updated_at
partial_newer _ _ = true

module _ ⦃bolt : Bolt⦄ where
  open bolt use {Bucket, get, seek}

  -- The walk over the index of uploads by path.
  unfoldable pub newest_from : Db Bucket → Bytes → Option Upload → Assoc (Unit {0}) → Option Upload
  unfolding state_eq newer after_prefix
  newest_from db prefix best [] = best
  newest_from db prefix best ((k, v) ∷ rest) =
      let more =
        newest_from db prefix
          (elim (get db.uploads (after_prefix k prefix)) [
            | none ↦ best
            | some u ↦ if state_eq u.state State.interrupted && newer best u then some u else best
          ])
          rest in
      if has_prefix k prefix then more else best

  unfoldable pub newest_interrupted : Db Bucket → Bytes → Bytes → Option Upload
  unfolding newest_from
  newest_interrupted db tenant name =
      let prefix = upload_path_key tenant name [] in
      newest_from db prefix none (seek db.upload_paths prefix)

  unfoldable pub published_at : Db Bucket → Bytes → Bytes → Option ObjectVersion
  published_at db tenant name = elim (get db.namespace (ns_key tenant name)) [
    | none ↦ none
    | some id ↦ get db.objects id
  ]

  -- os.Stat of the partial's file.
  unfoldable pub partial_of : Os → Disk → Option Upload → Option Base
  partial_of os disk none = none
  partial_of os disk (some u) = elim (disk u.staging_path) [
    | none ↦ none
    | some content ↦ if os.stat_ok then some (interrupted u (length content)) else none
  ]

  unfoldable pub base_candidates : Os → Db Bucket → Disk → Bytes → Bytes → List Base
  unfolding newest_interrupted published_at partial_of candidates_in_order partial_newer
  base_candidates os db disk tenant name =
      let newest = newest_interrupted db tenant name in
      let published = published_at db tenant name in
      candidates_in_order (partial_of os disk newest) published (partial_newer newest published)

  -- Who may open: an internal upload is only refused by a server that shuts down.
  unfoldable pub admission : Os → Bool → Policy → Store → Bytes → Bool → Result (Unit {0})
  unfolding admit_upload_of
  admission os draining pol store tenant internal =
      if internal then guard (not draining) Error.draining else do
        admit_upload_of draining (elim os.gate [ none ↦ none | some g ↦ some g.controller ]) pol
            store.count tenant
        elim os.gate [ none ↦ ok tt | some g ↦ g.slot ]

  -- There is a handle if there is no error; otherwise what it took is given back.
  unfoldable pub finish_open : Session × Result (Unit {0}) → Session × Result (Unit {0})
  unfolding let_go
  finish_open (s, err e) = (record s { h = let_go s.h }, err e)
  finish_open (s, ok _) = (record s { inflight = s.inflight +ℤ pos 1 }, ok tt)

  module _ (root : Bytes) (text : Error → Bytes) where
    unfoldable pub start_mode : Os → Session → Session × Result (Unit {0})
    unfolding start_fresh adopt base_candidates
    start_mode os s =
        let cs = base_candidates os s.store.db s.disk s.h.tenant s.h.path in
        elim s.h.mode [
          | truncating ↦ start_fresh root text os s
          | resuming ↦ (record s { h = record s.h { candidates = cs } }, ok tt)
          | appending ↦ elim cs [
            | [] ↦ start_fresh root text os s
            | c ∷ more ↦ adopt root text os c s
          ]
        ]

    -- `openUpload`. What a failed start has done to the store and the disk stays done.
    unfoldable pub open_upload :
        Os
        → Bool
        → Policy
        → Store
        → Disk
        → ℤ
        → Bytes
        → Bytes
        → Bytes
        → OpenMode
        → Bool
        → Result (Session × Result (Unit {0}))
    unfolding admission start_mode finish_open new_handle
    open_upload os draining pol store disk inflight tenant name protocol mode internal = do
      clean ← as_invalid_path (clean_path name)
      guard (not (bytes_eq clean [])) Error.invalid_path
      check_file_path store.db tenant clean
      admission os draining pol store tenant internal
      let begun : Session = record {
        store = store;
        disk = disk;
        inflight = inflight;
        h = new_handle tenant clean protocol mode internal;
      }
      ok (finish_open (start_mode os begun))
