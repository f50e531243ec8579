-- ===== src/Store/Run/Calls.antt =====
-- The catalog under the calls on names of internal/store/namespace.go.
use xsync.Prelude.{refl, Bool, not, Option, List, [], if_intro}
use xsync.Prelude.Bytes.{Bytes, bytes_eq}
use xsync.Bolt.{Bolt}
use xsync.Model.{ObjectVersion}
use xsync.Store.Error.{Error}
use xsync.Store.Ensures.{Ensures, Ensures-bind, Ensures-guard}
use xsync.Store.Path.{clean_path}
use xsync.Store.Keys.{Instant, ns_key}
use xsync.Store.Tx.{Tx}
use xsync.Store.Delete.{is_some}
use xsync.Store.Policy.{Policy}
use xsync.Store.Namespace.{check_ancestors, has_children, is_file, mkdir_tx, remove_dir_tx}
use xsync.Store.Calls.{rename_with, remove_at, mkdir_at, remove_dir_at}
use xsync.Store.Index.Operations.{Consistent, same-IsConsistent}
use xsync.Store.Index.Paths.{remove_tx-IsConsistent}
use xsync.Store.Index.Renaming.{rename_tx-IsConsistent}

module _ ⦃bolt : Bolt⦄ where
  open bolt use {Bucket, get}

  mkdir_tx-IsConsistent :
      (now : Instant) (tx : Tx Bucket) (tenant p : Bytes)
      → Consistent tx
      → Ensures Consistent (mkdir_tx now tx tenant p)
  unfolding mkdir_tx
  mkdir_tx-IsConsistent now tx tenant p v =
      if_intro (Ensures Consistent) (is_file tx.db tenant p) (λ _. tt)
        (λ _.
          Ensures-bind Consistent (check_ancestors tx.db tenant p) _
            (λ _ _. same-IsConsistent tx.db _ v refl refl refl refl))

  remove_dir_tx-IsConsistent :
      (tx : Tx Bucket) (tenant p : Bytes)
      → Consistent tx
      → Ensures Consistent (remove_dir_tx tx tenant p)
  unfolding remove_dir_tx
  remove_dir_tx-IsConsistent tx tenant p v =
      if_intro (Ensures Consistent) (has_children tx.db tenant p) (λ _. tt)
        (λ _.
          if_intro (Ensures Consistent) (is_some (get tx.directories (ns_key tenant p)))
            (λ _. same-IsConsistent tx.db _ v refl refl refl refl) (λ _. tt))

  pub rename_with-IsConsistent :
      (pol : Policy) (now : Instant) (tx : Tx Bucket) (tenant old_name new_name : Bytes)
      (overwrite : Bool)
      → Consistent tx
      → Ensures
          (λ (r : Tx Bucket × List ObjectVersion). Consistent r.0)
          (rename_with pol now tx tenant old_name new_name overwrite)
  unfolding rename_with
  rename_with-IsConsistent pol now tx tenant old_name new_name overwrite v =
      let P : Tx Bucket × List ObjectVersion → Type 0 = (λ r. Consistent r.0) in
      Ensures-bind P (clean_path old_name) _ (λ old_path _.
        Ensures-bind P (clean_path new_name) _ (λ new_path _.
          Ensures-guard P (not (bytes_eq new_path [])) Error.other _ (λ _.
            Ensures-guard P (not (bytes_eq old_path [])) Error.invalid_path _
              (λ _. rename_tx-IsConsistent pol now tx tenant old_path new_path overwrite v))))

  pub remove_at-IsConsistent :
      (now : Instant) (tx : Tx Bucket) (tenant name : Bytes)
      → Consistent tx
      → Ensures
          (λ (r : Tx Bucket × Option ObjectVersion). Consistent r.0)
          (remove_at now tx tenant name)
  unfolding remove_at
  remove_at-IsConsistent now tx tenant name v =
      Ensures-bind (λ r. Consistent r.0) (clean_path name) _
        (λ clean _. remove_tx-IsConsistent now tx tenant clean v)

  pub mkdir_at-IsConsistent :
      (now : Instant) (tx : Tx Bucket) (tenant name : Bytes)
      → Consistent tx
      → Ensures Consistent (mkdir_at now tx tenant name)
  unfolding mkdir_at
  mkdir_at-IsConsistent now tx tenant name v =
      Ensures-bind Consistent (clean_path name) _ (λ clean _.
        if_intro (Ensures Consistent) (bytes_eq clean []) (λ _. v)
          (λ _. mkdir_tx-IsConsistent now tx tenant clean v))

  pub remove_dir_at-IsConsistent :
      (tx : Tx Bucket) (tenant name : Bytes)
      → Consistent tx
      → Ensures Consistent (remove_dir_at tx tenant name)
  unfolding remove_dir_at
  remove_dir_at-IsConsistent tx tenant name v =
      Ensures-bind Consistent (clean_path name) _ (λ clean _.
        Ensures-guard Consistent (not (bytes_eq clean [])) Error.conflict _
          (λ _. remove_dir_tx-IsConsistent tx tenant clean v))
