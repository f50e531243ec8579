-- ===== src/Store/Rename.antt =====
-- `RenameWith` and its parts of internal/store/namespace.go, on clean paths.
use xsync.Prelude.{
  Bool, true, false, not, ◌||◌, ◌&&◌, Option, none, some, List, [], ◌∷◌, ◌++◌, ◌==◌, if◌then◌else◌,
  length,
}
use xsync.Prelude.Bytes.{Bytes, bytes_eq, codes, has_prefix}
use xsync.Prelude.Assoc.{Assoc}
use xsync.Bolt.{Bolt}
use xsync.Model.{State, ObjectVersion, Entry}
use xsync.Store.Error.{Error, Result, ok, guard, or_fail, ◌>>=◌, ◌>>◌}
use xsync.Store.Path.{slash}
use xsync.Store.Keys.{Instant, nul, ns_key, time_id_key}
use xsync.Store.Tx.{Tx, Db}
use xsync.Store.Policy.{Policy, held}
use xsync.Store.Queue.{put_queue_entries, dequeue}
use xsync.Store.Delivery.{state_eq, put_object}
use xsync.Store.Namespace.{
  is_directory, is_file, check_ancestors, drop_path, replace_path, rename_in_place,
}
use xsync.Store.Publish.{place}

-- strings.TrimPrefix
unfoldable pub trim_prefix : Bytes → Bytes → Bytes
trim_prefix s [] = s
trim_prefix [] (p ∷ ps) = []
trim_prefix (c ∷ s) (p ∷ ps) =
    let rest = trim_prefix s ps in if c == p && has_prefix s ps then rest else c ∷ s

-- One namespace or directory key that a directory rename relocates.
pub data TreeMove : Type 0 where
  file : Bytes → Bytes → Bytes → TreeMove
  directory : Bytes → Bytes → TreeMove

-- The walk over the files under the old path.
unfoldable pub file_moves : Bytes → Bytes → Bytes → Assoc Bytes → List TreeMove
unfolding trim_prefix
file_moves prefix tenant new_path [] = []
file_moves prefix tenant new_path ((k, id) ∷ rest) =
    let more = file_moves prefix tenant new_path rest in
    if has_prefix k prefix
    then file k (ns_key tenant (new_path ++ (slash ∷ trim_prefix k prefix))) id ∷ more
    else []

-- The walk over the directory itself and those under it.
unfoldable pub directory_moves : Bytes → Bytes → Bytes → Assoc Entry → List TreeMove
unfolding trim_prefix
directory_moves tenant old_path new_path [] = []
directory_moves tenant old_path new_path ((k, e) ∷ rest) =
    let key = ns_key tenant old_path in
    let more = directory_moves tenant old_path new_path rest in
    if bytes_eq k key || has_prefix k (key ++ (slash ∷ []))
    then directory k
        (ns_key tenant (new_path ++ trim_prefix (trim_prefix k (tenant ++ (nul ∷ []))) old_path))
      ∷ more
    else []

module _ ⦃bolt : Bolt⦄ where
  open bolt use {Bucket, get, put, delete, seek}

  -- The object under its new path, at its old place in the queue if it had one.
  unfoldable pub keep_place : Tx Bucket → ObjectVersion → ObjectVersion → Tx Bucket
  unfolding put_object
  keep_place tx old moved =
      if old.queue_seq == 0
      then put_object tx moved
      else let o : ObjectVersion = record moved {
        queue_seq = old.queue_seq;
        visible_at = old.visible_at;
      } in
        put_object (put_queue_entries tx o) o

  -- A rename that crosses a hold pattern reclassifies the object.
  unfoldable pub move_object : Policy → Instant → Tx Bucket → ObjectVersion → Bytes → Tx Bucket
  unfolding dequeue keep_place state_eq
  move_object pol now tx o new_path =
      let (tx', o') = dequeue tx o in
      let moved : ObjectVersion = record o' { path = new_path; updated_at = now } in
      if state_eq o.state State.held && not (held pol.hold_patterns new_path)
      then place pol now
          (record tx' {
            db = record tx'.db { held = delete tx'.held (time_id_key moved.created_at moved.id) };
          })
          moved (some State.held)
      else if state_eq o.state State.ready && held pol.hold_patterns new_path
      then place pol now tx' moved (some State.ready)
      else keep_place tx' o moved

  unfoldable pub rename_file :
      Policy
      → Instant
      → Tx Bucket
      → Bytes
      → Bytes
      → Bytes
      → Bytes
      → Bool
      → Result (Tx Bucket × List ObjectVersion)
  unfolding state_eq
  rename_file pol now tx tenant old_path new_path id overwrite = do
    o ← or_fail (get tx.objects id) Error.not_found
    guard (not (state_eq o.state State.leased)) Error.busy
    guard (not (is_directory tx.db tenant new_path)) Error.conflict
    check_ancestors tx.db tenant new_path
    guard (overwrite || not (is_file tx.db tenant new_path)) Error.conflict
    let replaced : Tx Bucket × Option ObjectVersion =
        if is_file tx.db tenant new_path
        then replace_path now tx tenant new_path pol.supersede (codes "superseded")
        else (tx, none)
    let moved : Tx Bucket = move_object pol now replaced.0 o new_path
    let named : Tx Bucket = record moved {
      db = record moved.db { namespace = put moved.namespace (ns_key tenant new_path) id };
    }
    ok (
      drop_path named tenant old_path,
      elim (replaced.1) [ none ↦ [] | some victim ↦ victim ∷ [] ],
    )

  unfoldable pub collect_tree_moves : Db Bucket → Bytes → Bytes → Bytes → List TreeMove
  unfolding file_moves directory_moves
  collect_tree_moves db tenant old_path new_path =
      let prefix = ns_key tenant (old_path ++ (slash ∷ [])) in
      file_moves prefix tenant new_path (seek db.namespace prefix)
      ++ directory_moves tenant old_path new_path (seek db.directories (ns_key tenant old_path))

  -- Some file of the tree is being delivered.
  unfoldable pub any_leased : Db Bucket → List TreeMove → Bool
  unfolding state_eq
  any_leased db [] = false
  any_leased db (directory k k' ∷ ms) = any_leased db ms
  any_leased db (file k k' id ∷ ms) =
      elim (get db.objects id) [ none ↦ false | some o ↦ state_eq o.state State.leased ]
      || any_leased db ms

  unfoldable pub apply_tree_move :
      Policy → Instant → Tx Bucket → Bytes → TreeMove → Result (Tx Bucket)
  apply_tree_move pol now tx tenant (directory old_key new_key) =
      let path = trim_prefix new_key (tenant ++ (nul ∷ [])) in
      ok (record tx {
        db = record tx.db {
          directories =
              delete
                (put tx.directories new_key
                  (record { path = path; directory = true; updated_at = now }))
                old_key;
        };
      })
  apply_tree_move pol now tx tenant (file old_key new_key id) = do
    o ← or_fail (get tx.objects id) Error.not_found
    let moved : Tx Bucket = move_object pol now tx o (trim_prefix new_key (tenant ++ (nul ∷ [])))
    ok (record moved {
      db = record moved.db { namespace = delete (put moved.namespace new_key id) old_key };
    })

  unfoldable pub apply_tree_moves :
      Policy → Instant → Tx Bucket → Bytes → List TreeMove → Result (Tx Bucket)
  apply_tree_moves pol now tx tenant [] = ok tx
  apply_tree_moves pol now tx tenant (m ∷ ms) =
      apply_tree_move pol now tx tenant m >>= λ tx'. apply_tree_moves pol now tx' tenant ms

  unfoldable pub rename_tree :
      Policy → Instant → Tx Bucket → Bytes → Bytes → Bytes → Result (Tx Bucket)
  rename_tree pol now tx tenant old_path new_path = do
    guard (not (has_prefix new_path (old_path ++ (slash ∷ [])))) Error.conflict
    guard (not (is_file tx.db tenant new_path || is_directory tx.db tenant new_path)) Error.conflict
    check_ancestors tx.db tenant new_path
    let moves : List TreeMove = collect_tree_moves tx.db tenant old_path new_path
    guard (not (length moves == 0)) Error.not_found
    guard (not (any_leased tx.db moves)) Error.busy
    apply_tree_moves pol now tx tenant moves

  -- The write transaction of `RenameWith`, with the replaced objects whose blobs are to unlink.
  unfoldable pub rename_tx :
      Policy
      → Instant
      → Tx Bucket
      → Bytes
      → Bytes
      → Bytes
      → Bool
      → Result (Tx Bucket × List ObjectVersion)
  rename_tx pol now tx tenant old_path new_path overwrite =
      if bytes_eq old_path new_path
      then (rename_in_place tx.db tenant old_path >>= λ _. ok (tx, []))
      else elim (get tx.namespace (ns_key tenant old_path)) [
        | some id ↦ rename_file pol now tx tenant old_path new_path id overwrite
        | none ↦ rename_tree pol now tx tenant old_path new_path >>= λ tx'. ok (tx', [])
      ]
