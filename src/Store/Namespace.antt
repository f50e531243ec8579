-- ===== src/Store/Namespace.antt =====
-- The uploader's file tree: `hasChildren`, `renameInPlace`, `Remove`, `DirectoryExists`,
-- `RemoveDir`, `Mkdir` and `Current` of internal/store/namespace.go; `replacePath`, `checkFilePath`
-- and `checkAncestors` of internal/store/upload.go. Paths are clean (Store/Path.antt).
use xsync.Prelude.{
  Bool, true, false, ◌||◌, Option, none, some, List, [], ◌∷◌, ◌++◌, ◌==◌, if◌then◌else◌,
}
use xsync.Prelude.Bytes.{Bytes, codes, has_prefix}
use xsync.Prelude.Assoc.{Assoc}
use xsync.Bolt.{Bolt}
use xsync.Model.{State, ObjectVersion}
use xsync.Store.Error.{Error, Result, ok, err, or_fail, ◌>>=◌, ◌>>◌}
use xsync.Store.Path.{slash}
use xsync.Store.Keys.{Instant, ns_key}
use xsync.Store.Tx.{Tx, Db}
use xsync.Store.Delete.{is_some, delete_object_tx}
use xsync.Store.Delivery.{state_eq}

-- The directories that path.Dir walks through from a clean path, nearest the root first: what
-- stands before each slash.
unfoldable pub ancestors_from : Bytes → Bytes → List Bytes
ancestors_from before [] = []
ancestors_from before (c ∷ s) =
    let rest = ancestors_from (before ++ (c ∷ [])) s in if c == slash then before ∷ rest else rest

-- The cursor stands at a key with the prefix.
unfoldable pub begins_with {ℓ} : {V : Type ℓ} → Assoc V → Bytes → Bool
begins_with [] prefix = false
begins_with ((k, v) ∷ rest) prefix = has_prefix k prefix

module _ ⦃bolt : Bolt⦄ where
  open bolt use {Bucket, get, put, delete, seek}

  -- Some file or directory lives under the path.
  unfoldable pub has_children : Db Bucket → Bytes → Bytes → Bool
  unfolding begins_with
  has_children db tenant path =
      let prefix = ns_key tenant (path ++ (slash ∷ [])) in
      begins_with (seek db.namespace prefix) prefix
      || begins_with (seek db.directories prefix) prefix

  unfoldable pub is_directory : Db Bucket → Bytes → Bytes → Bool
  unfolding has_children
  is_directory db tenant path =
      is_some (get db.directories (ns_key tenant path)) || has_children db tenant path

  unfoldable pub is_file : Db Bucket → Bytes → Bytes → Bool
  is_file db tenant path = is_some (get db.namespace (ns_key tenant path))

  unfoldable pub any_file : Db Bucket → Bytes → List Bytes → Bool
  unfolding is_file
  any_file db tenant [] = false
  any_file db tenant (d ∷ ds) = is_file db tenant d || any_file db tenant ds

  -- A parent of the path is a file. The loop goes from the path up; the answer is the same.
  unfoldable pub check_ancestors : Db Bucket → Bytes → Bytes → Result (Unit {0})
  unfolding any_file ancestors_from
  check_ancestors db tenant p =
      if any_file db tenant (ancestors_from [] p) then err Error.not_directory else ok tt

  unfoldable pub check_file_path : Db Bucket → Bytes → Bytes → Result (Unit {0})
  unfolding is_directory check_ancestors
  check_file_path db tenant p =
      if is_directory db tenant p then err Error.is_directory else check_ancestors db tenant p

  unfoldable pub drop_path : Tx Bucket → Bytes → Bytes → Tx Bucket
  drop_path tx tenant p = record tx {
    db = record tx.db { namespace = delete tx.namespace (ns_key tenant p) };
  }

  -- The object stays for its downloader, and goes when the lease ends. It is stored under the id
  -- that the namespace has.
  unfoldable pub retract : Tx Bucket → Bytes → ObjectVersion → Tx Bucket
  retract tx id o = record tx {
    db = record tx.db { objects = put tx.objects id (record o { retracted = true }) };
  }

  -- A detached object: retracted if it is leased, deleted otherwise, and then returned.
  unfoldable pub discard_object :
      Instant → Tx Bucket → Bytes → ObjectVersion → Bytes → Tx Bucket × Option ObjectVersion
  unfolding retract state_eq
  discard_object now tx id o reason =
      if state_eq o.state State.leased
      then (retract tx id o, none)
      else (delete_object_tx now tx o reason, some o)

  unfoldable pub replace_path :
      Instant → Tx Bucket → Bytes → Bytes → Bool → Bytes → Tx Bucket × Option ObjectVersion
  unfolding drop_path discard_object
  replace_path now tx tenant p supersede reason = elim (get tx.namespace (ns_key tenant p)) [
    | none ↦ (tx, none)
    | some id ↦
        let tx' = drop_path tx tenant p in
        if supersede
        then elim (get tx'.objects id) [
          | none ↦ (tx', none)
          | some o ↦ discard_object now tx' id o reason
        ]
        else (tx', none)
  ]

  -- The write transaction of `Remove`. An object that is not leased leaves its own name; a path
  -- whose object is gone is dropped.
  unfoldable pub remove_tx :
      Instant → Tx Bucket → Bytes → Bytes → Result (Tx Bucket × Option ObjectVersion)
  unfolding is_directory drop_path retract state_eq
  remove_tx now tx tenant p = elim (get tx.namespace (ns_key tenant p)) [
    | none ↦ if is_directory tx.db tenant p then err Error.is_directory else err Error.not_found
    | some id ↦ elim (get tx.objects id) [
      | none ↦ ok (drop_path tx tenant p, none)
      | some o ↦
          if state_eq o.state State.leased
          then ok (retract (drop_path tx tenant p) id o, none)
          else ok (delete_object_tx now tx o (codes "removed"), some o)
    ]
  ]

  unfoldable pub rename_in_place : Db Bucket → Bytes → Bytes → Result (Unit {0})
  unfolding is_file is_directory
  rename_in_place db tenant path =
      if is_file db tenant path || is_directory db tenant path then ok tt else err Error.not_found

  -- The write transactions of `RemoveDir` and `Mkdir`, on a path that is not the root.
  unfoldable pub remove_dir_tx : Tx Bucket → Bytes → Bytes → Result (Tx Bucket)
  unfolding has_children
  remove_dir_tx tx tenant p =
      let key = ns_key tenant p in
      if has_children tx.db tenant p
      then err Error.conflict
      else if is_some (get tx.directories key)
      then ok (record tx { db = record tx.db { directories = delete tx.directories key } })
      else err Error.not_found

  unfoldable pub mkdir_tx : Instant → Tx Bucket → Bytes → Bytes → Result (Tx Bucket)
  unfolding is_file check_ancestors
  mkdir_tx now tx tenant p = if is_file tx.db tenant p then err Error.conflict else do
    check_ancestors tx.db tenant p
    ok (record tx {
      db = record tx.db {
        directories =
            put tx.directories (ns_key tenant p)
              (record { path = p; directory = true; updated_at = now });
      };
    })

  -- `Current`, on a clean path.
  unfoldable pub current : Db Bucket → Bytes → Bytes → Result ObjectVersion
  current db tenant p = do
    id ← or_fail (get db.namespace (ns_key tenant p)) Error.not_found
    or_fail (get db.objects id) Error.not_found
