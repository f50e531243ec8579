-- ===== src/Store/Index/Renaming.antt =====
-- The catalog under `renameFile`, `renameTree` and `RenameWith` of internal/store/namespace.go.
use xsync.Prelude.{
  ◌≡◌, ◌≢◌, refl, Bool, true, not, ◌||◌, Option, none, List, [], ◌∷◌, ◌++◌, ◌==◌, length,
  if◌then◌else◌, if_intro, arith, inl, inr, Option-cases,
}
use xsync.Prelude.Bytes.{Bytes, bytes_eq, codes, has_prefix}
use xsync.Bolt.{Bolt}
use xsync.Model.{State, ObjectVersion}
use xsync.Store.Error.{Error}
use xsync.Store.Ensures.{Ensures, Ensures-or_fail, Ensures-guard, Ensures-bind, Ensures-then}
use xsync.Store.Keys.{Instant, nul, ns_key}
use xsync.Store.Tx.{Tx}
use xsync.Store.Policy.{Policy}
use xsync.Store.Path.{slash}
use xsync.Store.Delivery.{state_eq}
use xsync.Store.Namespace.{
  is_directory, is_file, check_ancestors, drop_path, replace_path, rename_in_place,
}
use xsync.Store.Rename.{
  TreeMove, file, directory, rename_file, apply_tree_move, apply_tree_moves, rename_tree, rename_tx,
  trim_prefix, collect_tree_moves, any_leased,
}
use xsync.Store.Index.Operations.{Consistent, same-IsConsistent}
use xsync.Store.Index.Paths.{replace_path-IsConsistent}
use xsync.Store.Index.Moving.{IsRead, IsRead-found, move_object-IsConsistent}

module _ ⦃bolt : Bolt⦄ where
  open bolt use {Bucket, get, put, delete}

  not_leased : (s : State) → not (state_eq s State.leased) ≡ true → s ≢ State.leased
  unfolding state_eq
  not_leased s h = ground arith

  -- Not leased, so it says the same of a later catalog.
  IsRead-later :
      (tx tx' : Tx Bucket) (o : ObjectVersion) → IsRead tx o → o.state ≢ State.leased → IsRead tx' o
  IsRead-later tx tx' o r n = record {
    id_clean = r.id_clean;
    queued = r.queued;
    unqueued = r.unqueued;
    leased = λ l. absurd (n l);
  }

  -- The renaming of one file keeps the catalog consistent, with the version that it replaces.
  rename_file-IsConsistent :
      (pol : Policy) (now : Instant) (tx : Tx Bucket) (tenant old_path new_path id : Bytes)
      (overwrite : Bool)
      → Consistent tx
      → Ensures
          (λ (r : Tx Bucket × List ObjectVersion). Consistent r.0)
          (rename_file pol now tx tenant old_path new_path id overwrite)
  unfolding rename_file drop_path
  rename_file-IsConsistent pol now tx tenant old_path new_path id overwrite v =
      let P : Tx Bucket × List ObjectVersion → Type 0 = (λ r. Consistent r.0) in
      Ensures-or_fail P (get tx.objects id) Error.not_found _ (λ o e.
        Ensures-guard P (not (state_eq o.state State.leased)) Error.busy _ (λ free.
          Ensures-guard P (not (is_directory tx.db tenant new_path)) Error.conflict _ (λ _.
            Ensures-bind P (check_ancestors tx.db tenant new_path) _ (λ _ _.
              Ensures-guard P (overwrite || not (is_file tx.db tenant new_path)) Error.conflict _
                (λ _.
                  let replaced : Tx Bucket × Option ObjectVersion =
                    if is_file tx.db tenant new_path
                    then replace_path now tx tenant new_path pol.supersede (codes "superseded")
                    else (tx, none) in
                  let v' : Consistent replaced.0 =
                    if_intro (λ (r : Tx Bucket × Option ObjectVersion). Consistent r.0)
                      (is_file tx.db tenant new_path)
                      (λ _.
                        replace_path-IsConsistent now tx tenant new_path pol.supersede
                          (codes "superseded") v)
                      (λ _. v) in
                  same-IsConsistent _ _
                    (move_object-IsConsistent pol now replaced.0 o new_path v' (
                      IsRead-later tx replaced.0 o (IsRead-found tx id o v e)
                        (not_leased o.state free)))
                    refl refl refl refl)))))

  apply_tree_move-IsConsistent :
      (pol : Policy) (now : Instant) (tx : Tx Bucket) (tenant : Bytes) (m : TreeMove)
      → Consistent tx
      → Ensures Consistent (apply_tree_move pol now tx tenant m)
  unfolding apply_tree_move
  apply_tree_move-IsConsistent pol now tx tenant (directory k k') v =
      same-IsConsistent tx.db _ v refl refl refl refl
  apply_tree_move-IsConsistent pol now tx tenant (file k k' id) v =
      Ensures-or_fail Consistent (get tx.objects id) Error.not_found _ (λ o e.
        same-IsConsistent _ _
          (move_object-IsConsistent pol now tx o (trim_prefix k' (tenant ++ (nul ∷ []))) v
            (IsRead-found tx id o v e))
          refl refl refl refl)

  apply_tree_moves-IsConsistent :
      (pol : Policy) (now : Instant) (tx : Tx Bucket) (tenant : Bytes) (ms : List TreeMove)
      → Consistent tx
      → Ensures Consistent (apply_tree_moves pol now tx tenant ms)
  unfolding apply_tree_moves
  apply_tree_moves-IsConsistent pol now tx tenant [] v = v
  apply_tree_moves-IsConsistent pol now tx tenant (m ∷ ms) v =
      Ensures-then Consistent Consistent (apply_tree_move pol now tx tenant m) _
        (apply_tree_move-IsConsistent pol now tx tenant m v)
        (λ tx' v'. apply_tree_moves-IsConsistent pol now tx' tenant ms v')

  rename_tree-IsConsistent :
      (pol : Policy) (now : Instant) (tx : Tx Bucket) (tenant old_path new_path : Bytes)
      → Consistent tx
      → Ensures Consistent (rename_tree pol now tx tenant old_path new_path)
  unfolding rename_tree
  rename_tree-IsConsistent pol now tx tenant old_path new_path v =
      let moves : List TreeMove = collect_tree_moves tx.db tenant old_path new_path in
      Ensures-guard Consistent (not (has_prefix new_path (old_path ++ (slash ∷ [])))) Error.conflict
        _
        (λ _.
          Ensures-guard Consistent
            (not (is_file tx.db tenant new_path || is_directory tx.db tenant new_path))
            Error.conflict _
            (λ _. Ensures-bind Consistent (check_ancestors tx.db tenant new_path) _ (λ _ _.
              Ensures-guard Consistent (not (length moves == 0)) Error.not_found _ (λ _.
                Ensures-guard Consistent (not (any_leased tx.db moves)) Error.busy _
                  (λ _. apply_tree_moves-IsConsistent pol now tx tenant moves v)))))

  -- `RenameWith` keeps the catalog consistent, for a file, for a directory and in place.
  pub rename_tx-IsConsistent :
      (pol : Policy) (now : Instant) (tx : Tx Bucket) (tenant old_path new_path : Bytes)
      (overwrite : Bool)
      → Consistent tx
      → Ensures
          (λ (r : Tx Bucket × List ObjectVersion). Consistent r.0)
          (rename_tx pol now tx tenant old_path new_path overwrite)
  unfolding rename_tx
  rename_tx-IsConsistent pol now tx tenant old_path new_path overwrite v =
      let P : Tx Bucket × List ObjectVersion → Type 0 = (λ r. Consistent r.0) in
      if_intro (Ensures P) (bytes_eq old_path new_path)
        (λ _. Ensures-bind P (rename_in_place tx.db tenant old_path) _ (λ _ _. v))
        (λ _. elim (Option-cases (get tx.namespace (ns_key tenant old_path))) [
          | inl e ↦ rw e (
              Ensures-then Consistent P (rename_tree pol now tx tenant old_path new_path) _
                (rename_tree-IsConsistent pol now tx tenant old_path new_path v) (λ tx' v'. v'))
          | inr (id, e) ↦
              rw e (rename_file-IsConsistent pol now tx tenant old_path new_path id overwrite v)
        ])
