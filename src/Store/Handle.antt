-- ===== src/Store/Handle.antt =====
-- The upload handle of internal/store/upload.go: its state, what it works on, and how an upload
-- starts: `startFresh`, `adopt` with its two ways, `resolve`, `markUpload`. A call of the handle
-- meets one reading of the clock and one set of answers of the operating system.
pub mod Open
pub mod Writing
pub mod Closing
pub mod Steps
pub mod Invariant
pub mod Running
pub mod Written
pub mod Known
pub mod Placed
pub mod Published
pub mod Settled
pub mod Acknowledged
pub mod Untouched
pub mod Refused
pub mod Parked
mod Examples
use xsync.Prelude.{
  ℕ, ◌<◌, Bool, true, false, not, ◌&&◌, ◌||◌, Option, none, some, List, [], ◌∷◌, ◌++◌, ◌==◌, ltb,
  leb, length, if◌then◌else◌,
}
use xsync.Prelude.Bytes.{Bytes, codes, bytes_eq, take}
use xsync.Prelude.Int.{ℤ, pos, ◌+ℤ◌}
use xsync.Bolt.{Bolt}
use xsync.Capacity.{Controller, Reservation, refused, check_critical, reserve}
use xsync.Model.{State, Upload, ObjectVersion}
use xsync.Upload.Coverage.{Coverage, add}
use xsync.Upload.Hasher.{StreamHasher, new_stream_hasher}
use xsync.Store.Error.{Error, Result, ok, err}
use xsync.Store.Keys.{Instant, time_id_key, upload_path_key}
use xsync.Store.Tx.{Tx}
use xsync.Store.Delete.{is_some}
use xsync.Store.Delivery.{state_eq}
use xsync.Store.Publish.{ObjectMeta}
use xsync.Store.Run.{Store, update}

pub data OpenMode : Type 0 where
  truncating resuming appending : OpenMode

-- Content to inherit, with its size: an interrupted upload's or the published version's.
pub data Base : Type 0 where
  interrupted : Upload → ℕ → Base
  current : ObjectVersion → ℕ → Base

unfoldable pub size_of : Base → ℕ
size_of (interrupted u size) = size
size_of (current o size) = size

unfoldable pub source : Base → Bytes
source (interrupted u size) = u.staging_path
source (current o size) = o.blob_path

pub data AppendMode : Type 0 where
  undecided relative absolute : AppendMode

-- A file's name stands for *os.File, and whether a release function is held for the function.
pub record UploadHandle : Type 0 where
  pub tenant : Bytes
  pub path : Bytes
  pub protocol : Bytes
  pub mode : OpenMode
  pub unmetered : Bool
  pub upload : Upload
  pub file : Option Bytes
  pub resolved : Bool
  pub candidates : List Base
  pub base_size : ℕ
  pub fill_prefix : Bool
  pub append_mode : AppendMode
  pub cov : Coverage
  pub hasher : Option StreamHasher
  pub failed : Option Error
  pub fatal : Bool
  pub closed : Bool
  pub release : Bool
  pub reserved : Bool
  pub meta : Option ObjectMeta

-- The contents of the files by name.
abbrev pub Disk : Type 0
Disk = Bytes → Option Bytes

unfoldable pub put_file : Disk → Bytes → Bytes → Disk
put_file disk name content other = if bytes_eq name other then some content else disk other

unfoldable pub remove_file : Disk → Bytes → Disk
remove_file disk name other = if bytes_eq name other then none else disk other

-- The gate during a call: what AcquireUpload and the limiters of WaitN answer is up to others.
pub record Gate : Type 0 where
  pub controller : Controller
  pub slot : Result (Unit {0})
  pub paced : Result (Unit {0})

-- What a call meets: the clock, the gate, and whether each operation on files succeeds. `copied` and
-- `wrote` are the bytes that are transferred before an error, none if there is no error.
pub record Os : Type 0 where
  pub now : Instant
  pub gate : Option Gate
  pub random_id : Option Bytes
  pub mkdir_ok : Bool
  pub create_ok : Bool
  pub open_ok : Bool
  pub stat_ok : Bool
  pub copied : Option ℕ
  pub wrote : Option ℕ
  pub truncate_ok : Bool
  pub sync_ok : Bool
  pub close_ok : Bool
  pub hash_ok : Bool
  pub rename_ok : Bool
  pub sync_dir_ok : Bool

unfoldable pub is_refused : Reservation → Bool
is_refused refused = true
is_refused _ = false

-- `Reserve` of internal/store/store.go: a store without a gate has room for anything.
unfoldable pub has_room : Os → ℕ → Bool
unfolding is_refused
has_room os n = elim os.gate [ none ↦ true | some g ↦ not (is_refused (reserve g.controller n).1) ]

-- `WaitN`: its loop over the rate limiters (golang.org/x/time/rate) is one answer, which the gate
-- brings.
unfoldable pub wait_n : Gate → ℕ → Result (Unit {0})
wait_n g n =
    if n == 0 then ok tt else elim (check_critical g.controller) [ err e ↦ err e | ok _ ↦ g.paced ]

-- The bytes of a transfer that get through.
unfoldable pub sent : Option ℕ → Bytes → Bytes
sent none p = p
sent (some n) p = take n p

unfoldable pub find_exact : List Base → ℕ → Option Base
find_exact [] off = none
find_exact (c ∷ cs) off = let rest = find_exact cs off in if size_of c == off then some c else rest

unfoldable pub find_larger : List Base → ℕ → Option Base
find_larger [] off = none
find_larger (c ∷ cs) off =
    let rest = find_larger cs off in if ltb off (size_of c) then some c else rest

unfoldable pub first_some {ℓ} : {A : Type ℓ} → Option A → Option A → Option A
first_some none b = b
first_some (some a) b = some a

-- Where the file of a new upload, and its blob, stand.
unfoldable pub staging_path : Bytes → Bytes → Bytes → Bytes
staging_path root tenant id =
    root ++ (codes "/staging/" ++ (tenant ++ (codes "/" ++ (id ++ codes ".partial"))))

unfoldable pub blob_path : Bytes → Bytes → Bytes → Bytes
blob_path root tenant id =
    root ++ (codes "/objects/" ++ (tenant ++ (codes "/" ++ (id ++ codes ".blob"))))

unfoldable pub new_upload : UploadHandle → Bytes → Bytes → Instant → Upload
new_upload h id stage now = record {
  id = id;
  tenant = h.tenant;
  path = h.path;
  protocol = h.protocol;
  staging_path = stage;
  state = State.uploading;
  created_at = now;
  updated_at = now;
  error = [];
}

module _ ⦃bolt : Bolt⦄ where
  open bolt use {Bucket, get, put, delete}

  -- One handle, and what it shares with the others.
  pub record Session : Type 0 where
    pub store : Store
    pub disk : Disk
    pub inflight : ℤ
    pub h : UploadHandle

  -- The write transaction of `startFresh`.
  unfoldable pub start_tx : Upload → Tx Bucket → Result (Tx Bucket × Unit {0})
  start_tx u tx = ok (
    record tx {
      db = record tx.db {
        upload_paths = put tx.upload_paths (upload_path_key u.tenant u.path u.id) tt;
        uploads = put tx.uploads u.id u;
      };
      delta = record tx.delta { uploads = tx.delta.uploads +ℤ pos 1 };
    },
    tt,
  )

  -- The write transaction of `adoptInterrupted`, with the upload if it could be taken.
  unfoldable pub adopt_tx : Instant → Bytes → Bytes → Tx Bucket → Result (Tx Bucket × Option Upload)
  unfolding state_eq
  adopt_tx now protocol id tx = elim (get tx.uploads id) [
    | none ↦ ok (tx, none)
    | some cur ↦
        if state_eq cur.state State.interrupted
        then (let u : Upload = record cur {
          state = State.uploading;
          protocol = protocol;
          error = [];
          updated_at = now;
        } in
            ok (
              record tx {
                db = record tx.db {
                  stale = delete tx.stale (time_id_key cur.updated_at cur.id);
                  uploads = put tx.uploads u.id u;
                };
              },
              some u,
            ))
        else ok (tx, none)
  ]

  -- The write transaction of `markUpload`, on the upload as it is to be stored.
  unfoldable pub mark_tx : Upload → Instant → Tx Bucket → Result (Tx Bucket × Unit {0})
  unfolding state_eq
  mark_tx u before tx =
      let prev : Instant = elim (get tx.uploads u.id) [
        | none ↦ before
        | some cur ↦ cur.updated_at
      ] in
      let unmarked = delete tx.stale (time_id_key prev u.id) in
      ok (
        record tx {
          db = record tx.db {
            stale =
                if state_eq u.state State.interrupted || state_eq u.state State.failed
                then put unmarked (time_id_key u.updated_at u.id) tt
                else unmarked;
            uploads = put tx.uploads u.id u;
          };
        },
        tt,
      )

  -- `text` is Error() of the cause.
  unfoldable pub mark_upload : Os → Upload → State → Bytes → Session → Session
  unfolding mark_tx
  mark_upload os u state text s =
      let marked : Upload = record u { state = state; updated_at = os.now; error = text } in
      record s { store = (update s.store (mark_tx marked u.updated_at)).0 }

  module _ (root : Bytes) (text : Error → Bytes) where
    -- The file is created exclusively.
    unfoldable pub start_fresh : Os → Session → Session × Result (Unit {0})
    unfolding new_upload start_tx put_file
    start_fresh os s = elim os.random_id [
      | none ↦ (s, err Error.other)
      | some id ↦
          let stage = staging_path root s.h.tenant id in
          let u = new_upload s.h id stage os.now in
          if not (os.mkdir_ok && (os.create_ok && not (is_some (s.disk stage))))
          then (s, err Error.other)
          else (
            record s {
              store = (update s.store (start_tx u)).0;
              disk = put_file s.disk stage [];
              h = record s.h {
                upload = u;
                file = some stage;
                resolved = true;
                hasher = some new_stream_hasher;
              };
            },
            ok tt,
          )
    ]

    -- The file of an interrupted upload that was taken.
    unfoldable pub open_partial : Os → Upload → Session → Session × Result (Unit {0})
    open_partial os u s = elim (s.disk u.staging_path) [
      | none ↦ (mark_upload os u State.failed (text Error.other) s, err Error.other)
      | some content ↦
          if os.open_ok && os.stat_ok
          then (
            record s {
              h = record s.h {
                upload = u;
                file = some u.staging_path;
                resolved = true;
                base_size = length content;
                cov = add s.h.cov 0 (length content);
                hasher = none;
              };
            },
            ok tt,
          )
          else (mark_upload os u State.failed (text Error.other) s, err Error.other)
    ]

    unfoldable pub adopt_interrupted : Os → Upload → Session → Session × Result (Unit {0})
    unfolding adopt_tx open_partial
    adopt_interrupted os u s =
        let (store, r) = update s.store (adopt_tx os.now s.h.protocol u.id) in
        let s' : Session = record s { store = store } in
        elim r [
          | err e ↦ (s', err e)
          | ok none ↦ (s', err Error.conflict)
          | ok (some taken) ↦ open_partial os taken s'
        ]

    -- io.Copy from a blob into the new staging file, which is empty.
    unfoldable pub copy_blob : Os → Bytes → Session → Session × Result (Unit {0})
    unfolding put_file
    copy_blob os blob s = elim (s.disk blob) [
      | none ↦ (s, err Error.other)
      | some content ↦
          let copied : Session = record s {
            disk = put_file s.disk s.h.upload.staging_path (sent os.copied content);
          } in
          if not os.open_ok
          then (s, err Error.other)
          else if is_some os.copied
          then (copied, err Error.other)
          else (
            record copied {
              h = record s.h {
                base_size = length content;
                cov = add s.h.cov 0 (length content);
                hasher = none;
              };
            },
            ok tt,
          )
    ]

    unfoldable pub clone_current : Os → ObjectVersion → Session → Session × Result (Unit {0})
    unfolding has_room start_fresh copy_blob
    clone_current os o s =
        if not (has_room os o.size)
        then (s, err Error.insufficient)
        else let (s', r) = start_fresh os (record s { h = record s.h { reserved = true } }) in
          elim r [ err e ↦ (s', err e) | ok _ ↦ copy_blob os o.blob_path s' ]

    unfoldable pub adopt : Os → Base → Session → Session × Result (Unit {0})
    unfolding adopt_interrupted clone_current
    adopt os (interrupted u size) s = adopt_interrupted os u s
    adopt os (current o size) s = clone_current os o s

    -- Which content a resumed upload continues, by where its first write begins.
    unfoldable pub resolve : Os → ℕ → Session → Session × Result (Unit {0})
    unfolding start_fresh adopt find_exact find_larger first_some
    resolve os off s =
        if off == 0
        then start_fresh os s
        else elim (first_some (find_exact s.h.candidates off) (find_larger s.h.candidates off)) [
          | some c ↦ adopt os c s
          | none ↦
              let (s', r) = start_fresh os s in
              elim r [
                | err e ↦ (s', err e)
                | ok _ ↦ (record s' { h = record s'.h { fill_prefix = true } }, ok tt)
              ]
        ]
