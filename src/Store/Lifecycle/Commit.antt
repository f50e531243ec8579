-- ===== src/Store/Lifecycle/Commit.antt =====
-- `Commit` and `deleteObjectTx` of internal/store/delivery.go.
use xsync.Prelude.{
  ℕ, ◌≡◌, ◌≢◌, refl, sym, subst, ◌∙◌, ap, none, some, ◌==◌, if_intro, arith, inl, inr, Option-cases,
}
use xsync.Prelude.Bytes.{Bytes, bytes_eq_iff, codes}
use xsync.Bolt.{Bolt}
use xsync.Model.{ObjectVersion, Tombstone}
use xsync.Store.Keys.{Instant}
use xsync.Store.Tx.{Tx}
use xsync.Store.Delete.{
  is_some, drop_name, drop_lease, drop_state_index, bury, drop_record, delete_object_tx,
}
use xsync.Store.Outcome.{Outcome, deleted, already_deleted, commit_verdict, carry_out, commit_tx}
use xsync.Store.Index.Deletion.{dequeued, delete_object_tx-IsDeleted}
use xsync.Store.Index.Placing.{get-put_self}
use xsync.Store.Index.Operations.{Consistent, found_clean}

module _ ⦃bolt : Bolt⦄ where
  open bolt use {Bucket, get, put}

  abbrev tombstone : Instant → ObjectVersion → Bytes → Tombstone
  tombstone now o reason = record {
    object_id = o.id;
    tenant = o.tenant;
    reason = reason;
    deleted_at = now;
  }

  drop_record-tombstones :
      (tx : Tx Bucket) (o : ObjectVersion) → (drop_record tx o).tombstones ≡ tx.tombstones
  unfolding drop_record
  drop_record-tombstones tx o =
      if_intro (λ (t : Tx Bucket). t.tombstones ≡ tx.tombstones) (is_some (get tx.objects o.id))
        (λ _. refl) (λ _. refl)

  abbrev end_record : Instant → Tx Bucket → ObjectVersion → Bytes → Tx Bucket
  end_record now tx o reason =
      drop_record (bury now (drop_state_index (drop_lease tx o) o o.state) o reason) o

  end_record-tombstones :
      (now : Instant) (tx : Tx Bucket) (o : ObjectVersion) (reason : Bytes)
      → get (end_record now tx o reason).tombstones o.id ≡ some (tombstone now o reason)
  unfolding bury
  end_record-tombstones now tx o reason =
      let t : Tx Bucket = drop_state_index (drop_lease tx o) o o.state in
      ap (λ b. get b o.id) (drop_record-tombstones (bury now t o reason) o)
      ∙ get-put_self t.tombstones o.id (tombstone now o reason)

  -- The tombstone that a deletion leaves.
  buried :
      (now : Instant) (tx : Tx Bucket) (o : ObjectVersion) (reason : Bytes)
      → get (delete_object_tx now tx o reason).tombstones o.id ≡ some (tombstone now o reason)
  unfolding delete_object_tx
  buried now tx o reason =
      let named : Tx Bucket = drop_name tx o in
      if_intro
        (λ (r : Tx Bucket × ObjectVersion).
          get (end_record now r.0 r.1 reason).tombstones o.id ≡ some (tombstone now o reason))
        (o.queue_seq == 0) (λ _. end_record-tombstones now named o reason)
        (λ _. end_record-tombstones now (dequeued named o) (record o { queue_seq = 0 }) reason)

  -- What a verdict that deletes says of the catalog.
  commit_tx_lem :
      (now : Instant) (tx : Tx Bucket) (tenant id lease digest : Bytes) (size : ℕ)
      (o : ObjectVersion)
      → (commit_tx now tx tenant id lease digest size).1 ≡ deleted o
      → (get tx.objects id ≡ some o)
        × (o.tenant ≡ tenant)
        × ((commit_tx now tx tenant id lease digest size).0
            ≡ delete_object_tx now tx o (codes "committed"))
  unfolding commit_tx carry_out commit_verdict
  commit_tx_lem now tx tenant id lease digest size o e =
      ground (arith, bytes_eq_iff o.tenant tenant)

  commit_tx-buried :
      (now : Instant) (tx : Tx Bucket) (tenant id lease digest : Bytes) (size : ℕ) (t : Tombstone)
      → get tx.tombstones id ≡ some t
      → t.tenant ≡ tenant
      → commit_tx now tx tenant id lease digest size ≡ (tx, already_deleted)
  unfolding commit_tx
  commit_tx-buried now tx tenant id lease digest size t e own =
      rw (e, commit_tx, (bytes_eq_iff t.tenant tenant).1 own) refl

  -- In a consistent catalog: after a commit that deleted, the record is gone, and a further commit
  -- of the tenant on the catalog that the first one left, at any time and under any lease, size and
  -- digest, changes nothing and reports that the object was deleted before.
  pub commit_tx-twice :
      (now later : Instant) (tx : Tx Bucket) (tenant id lease lease' digest digest' : Bytes)
      (size size' : ℕ) (o : ObjectVersion)
      → Consistent tx
      → (commit_tx now tx tenant id lease digest size).1 ≡ deleted o
      → let tx' = (commit_tx now tx tenant id lease digest size).0 in
        (get tx'.objects id ≡ none)
        × (commit_tx later tx' tenant id lease' digest' size' ≡ (tx', already_deleted))
  unfolding commit_tx
  commit_tx-twice now later tx tenant id lease lease' digest digest' size size' o v e =
      let at = commit_tx_lem now tx tenant id lease digest size o e in
      let own : o.id ≡ id = (v.at_key id o at.0).own_id in
      let reason : Bytes = codes "committed" in
      let t : Tx Bucket = delete_object_tx now tx o reason in
      subst
        (λ (t : Tx Bucket).
          (get t.objects id ≡ none)
          × (commit_tx later t tenant id lease' digest' size' ≡ (t, already_deleted)))
        (sym at.2)
        (
          subst (λ k. get t.objects k ≡ none) own
              (delete_object_tx-IsDeleted now tx o reason (found_clean tx id o v at.0)).1,
          commit_tx-buried later t tenant id lease' digest' size' (tombstone now o reason)
              (subst (λ k. get t.tombstones k ≡ some (tombstone now o reason)) own
                (buried now tx o reason))
              at.1,
        )

  carry_out-unchanged :
      (now : Instant) (tx : Tx Bucket) (r : Outcome)
      → ((o : ObjectVersion) → (carry_out now tx r).1 ≢ deleted o)
      → (carry_out now tx r).0 ≡ tx
  unfolding carry_out
  carry_out-unchanged now tx (deleted o) h = absurd (h o refl)
  carry_out-unchanged now tx _ h = refl

  -- A commit that deletes no object changes nothing.
  pub commit_tx-unchanged :
      (now : Instant) (tx : Tx Bucket) (tenant id lease digest : Bytes) (size : ℕ)
      → ((o : ObjectVersion) → (commit_tx now tx tenant id lease digest size).1 ≢ deleted o)
      → (commit_tx now tx tenant id lease digest size).0 ≡ tx
  unfolding commit_tx
  commit_tx-unchanged now tx tenant id lease digest size h =
      elim (Option-cases (get tx.tombstones id)) [
        | inl e ↦
            rw (e, commit_tx)
              (carry_out-unchanged now tx
                (commit_verdict (get tx.objects id) tenant lease digest size)
                (λ o d. h o (rw (e, commit_tx) d)))
        | inr (t, e) ↦ rw (e, commit_tx) refl
      ]
