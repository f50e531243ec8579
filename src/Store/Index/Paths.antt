-- ===== src/Store/Index/Paths.antt =====
-- The catalog under what the uploaders do to the names, in internal/store/upload.go and
-- internal/store/namespace.go: a publish, a removal, a rename.
use xsync.Prelude.{
  ℕ, ◌+◌, ◌≡◌, refl, subst, Bool, true, Option, none, some, if_intro, inl, inr, Option-cases,
}
use xsync.Prelude.Bytes.{Bytes, Lacks, codes}
use xsync.Bolt.{Bolt}
use xsync.Model.{State, ObjectVersion, Upload}
use xsync.Store.Ensures.{Ensures, Ensures-bind}
use xsync.Store.Keys.{Instant, nul, ns_key}
use xsync.Store.Tx.{Tx}
use xsync.Store.Policy.{Policy, held}
use xsync.Store.Delete.{is_some}
use xsync.Store.Delivery.{state_eq, put_object}
use xsync.Store.Namespace.{
  is_directory, check_file_path, drop_path, retract, discard_object, replace_path, remove_tx,
}
use xsync.Store.Publish.{ObjectMeta, object_of, drop_upload, place, publish_tx}
use xsync.Store.Index.{IsConsistent}
use xsync.Store.Index.Framing.{Frame-same, Frame-refl, Frame-trans}
use xsync.Store.Index.Deletion.{Touches, delete_object_tx-IsConsistent}
use xsync.Store.Index.Placing.{put_object-IsConsistent, IsIndexed-idle, tail-IsConsistent}
use xsync.Store.Index.Operations.{Consistent, found_clean, same-IsConsistent}
use xsync.Store.Index.Outcomes.{retracted-IsConsistent}

module _ ⦃bolt : Bolt⦄ where
  open bolt use {Bucket, get, put, delete, next_sequence}

  drop_path-IsConsistent :
      (tx : Tx Bucket) (tenant p : Bytes) → Consistent tx → Consistent (drop_path tx tenant p)
  unfolding drop_path
  drop_path-IsConsistent tx tenant p v = same-IsConsistent tx.db _ v refl refl refl refl

  -- Retracting the object that a catalog has under an id.
  retract-IsConsistent :
      (tx : Tx Bucket) (id : Bytes) (o : ObjectVersion)
      → Consistent tx
      → get tx.objects id ≡ some o
      → Consistent (retract tx id o)
  unfolding retract
  retract-IsConsistent tx id o v e =
      subst
        (λ i.
          IsConsistent
            (record tx.db { objects = put tx.objects i (record o { retracted = true }) }))
        (v.at_key id o e).own_id (retracted-IsConsistent tx.db tx.db id o v e refl refl refl refl)

  discard_object-IsConsistent :
      (now : Instant) (tx : Tx Bucket) (id : Bytes) (o : ObjectVersion) (reason : Bytes)
      → Consistent tx
      → get tx.objects id ≡ some o
      → Consistent (discard_object now tx id o reason).0
  unfolding discard_object
  discard_object-IsConsistent now tx id o reason v e =
      if_intro (λ (r : Tx Bucket × Option ObjectVersion). Consistent r.0)
        (state_eq o.state State.leased) (λ _. retract-IsConsistent tx id o v e)
        (λ _.
          delete_object_tx-IsConsistent now tx tx o reason v (Frame-refl o.id tx.db)
            (found_clean tx id o v e))

  pub replace_path-IsConsistent :
      (now : Instant) (tx : Tx Bucket) (tenant p : Bytes) (supersede : Bool) (reason : Bytes)
      → Consistent tx
      → Consistent (replace_path now tx tenant p supersede reason).0
  unfolding replace_path
  replace_path-IsConsistent now tx tenant p supersede reason v =
      elim (Option-cases (get tx.namespace (ns_key tenant p))) [
        | inl e ↦ rw (e, replace_path) v
        | inr (id, e) ↦
            let tx' : Tx Bucket = drop_path tx tenant p in
            let v' : Consistent tx' = drop_path-IsConsistent tx tenant p v in
            rw (e, replace_path)
              (if_intro (λ (r : Tx Bucket × Option ObjectVersion). Consistent r.0) supersede
                (λ _. elim (Option-cases (get tx'.objects id)) [
                  | inl f ↦ rw f v'
                  | inr (o, f) ↦ rw f (discard_object-IsConsistent now tx' id o reason v' f)
                ])
                (λ _. v'))
      ]

  -- `Remove` keeps the catalog consistent.
  pub remove_tx-IsConsistent :
      (now : Instant) (tx : Tx Bucket) (tenant p : Bytes)
      → Consistent tx
      → Ensures
          (λ (r : Tx Bucket × Option ObjectVersion). Consistent r.0)
          (remove_tx now tx tenant p)
  unfolding remove_tx
  remove_tx-IsConsistent now tx tenant p v =
      let P : Tx Bucket × Option ObjectVersion → Type 0 = (λ r. Consistent r.0) in
      elim (Option-cases (get tx.namespace (ns_key tenant p))) [
        | inl e ↦
            rw (e, remove_tx)
              (if_intro (Ensures P) (is_directory tx.db tenant p) (λ _. tt) (λ _. tt))
        | inr (id, e) ↦ elim (Option-cases (get tx.objects id)) [
          | inl f ↦ rw (e, f, remove_tx) (drop_path-IsConsistent tx tenant p v)
          | inr (o, f) ↦
              rw (e, f, remove_tx)
                (if_intro (Ensures P) (state_eq o.state State.leased)
                  (λ _.
                    retract-IsConsistent (drop_path tx tenant p) id o
                      (drop_path-IsConsistent tx tenant p v) f)
                  (λ _.
                    delete_object_tx-IsConsistent now tx tx o (codes "removed") v
                      (Frame-refl o.id tx.db) (found_clean tx id o v f)))
        ]
      ]

  -- An object that is placed anew is HELD, or READY at the tail of its queue.
  pub place-IsConsistent :
      (pol : Policy) (now : Instant) (tx₀ tx : Tx Bucket) (o : ObjectVersion) (from : Option State)
      → IsConsistent tx₀.db
      → Touches o.id tx₀ tx
      → Lacks nul o.id
      → o.queue_seq ≡ 0
      → Consistent (place pol now tx o from)
  unfolding place put_object
  place-IsConsistent pol now tx₀ tx o from v f c z =
      if_intro (λ (t : Tx Bucket). Consistent t) (held pol.hold_patterns o.path)
        (λ _.
          put_object-IsConsistent tx₀.db _ (record o { state = State.held }) v
            (Frame-trans o.id tx₀.db tx.db _ f (Frame-same o.id tx.db _ refl refl refl refl))
            (IsIndexed-idle _ (record o { state = State.held }) c (λ e. cc) (λ e. cc) z))
        (λ _.
          tail-IsConsistent tx₀ tx (record o { state = State.ready }) (now + pol.publish_delay) v f
            c refl)

  drop_upload-IsConsistent :
      (tx : Tx Bucket) (u : Upload) → Consistent tx → Consistent (drop_upload tx u)
  unfolding drop_upload
  drop_upload-IsConsistent tx u v =
      if_intro (λ (t : Tx Bucket). Consistent t) (is_some (get tx.uploads u.id))
        (λ _. same-IsConsistent tx.db _ v refl refl refl refl)
        (λ _. same-IsConsistent tx.db _ v refl refl refl refl)

  -- `publish` keeps the catalog consistent, for an upload whose id has no NUL: when it succeeds,
  -- each READY object of the catalog, the new one too, stands in both queues, and each LEASED one
  -- in the expiry index.
  pub publish_tx-IsConsistent :
      (pol : Policy) (now : Instant) (tx : Tx Bucket) (u : Upload) (blob digest : Bytes) (size : ℕ)
      (meta : Option ObjectMeta)
      → Consistent tx
      → Lacks nul u.id
      → Ensures
          (λ (r : Tx Bucket × Option ObjectVersion). Consistent r.0)
          (publish_tx pol now tx u blob digest size meta)
  unfolding publish_tx object_of
  publish_tx-IsConsistent pol now tx u blob digest size meta v c =
      let P : Tx Bucket × Option ObjectVersion → Type 0 = (λ r. Consistent r.0) in
      if_intro (Ensures P) (is_some (get tx.objects u.id)) (λ _. drop_upload-IsConsistent tx u v)
        (λ _. Ensures-bind P (check_file_path tx.db u.tenant u.path) _ (λ _ _.
          let numbered : Tx Bucket = record tx {
            db = record tx.db { versions = next_sequence tx.versions };
          } in
          let replaced : Tx Bucket × Option ObjectVersion =
            replace_path now numbered u.tenant u.path pol.supersede (codes "superseded") in
          drop_upload-IsConsistent _ u (
            same-IsConsistent _ _
              (place-IsConsistent pol now replaced.0 replaced.0 _ none
                (replace_path-IsConsistent now numbered u.tenant u.path pol.supersede
                  (codes "superseded") (same-IsConsistent tx.db _ v refl refl refl refl))
                (Frame-refl u.id _) c refl)
              refl refl refl refl)))
