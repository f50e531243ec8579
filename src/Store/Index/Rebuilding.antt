-- ===== src/Store/Index/Rebuilding.antt =====
-- The catalog under `rebuildIndexes` of internal/store/schema.go.
use xsync.Prelude.{
  ◌≡◌, ◌≢◌, ◌⊎◌, refl, sym, subst, ◌∙◌, ap, some, List, [], ◌∷◌, inl, inr, Bool-cases,
}
use xsync.Prelude.Bytes.{Bytes, bytes_eq, bytes_eq_iff, ne_of_bytes_eq, codes}
use xsync.Prelude.Assoc.{Assoc}
use xsync.Bolt.{Bolt}
use xsync.Model.{ObjectVersion, Upload, Claim, Tombstone}
use xsync.Store.Keys.{Instant, time_id_key, parked_key}
use xsync.Store.Tx.{Tx, Db, no_delta}
use xsync.Store.Rebuild.{
  sort_objects_by_version, clear_indexes, index_object, index_objects, index_uploads,
  drop_stale_claims, index_tombstones, rebuild_indexes,
}
use xsync.Store.Index.{IsIndexed, IsConsistent}
use xsync.Store.Index.Shelves.{AreShelved, Shelving, step-Shelving, index_object-IsShelfStep}
use xsync.Store.Index.Sorting.{Listed, sort-Listed, Listed-sort}
use xsync.Store.Index.Framing.{IsIndexed-Frame}
use xsync.Store.Index.Deletion.{delete_object_tx-IsDeleted}
use xsync.Store.Index.Operations.{same-IsConsistent}
use xsync.Store.Index.Refilling.{IsSound, Partly, IsStep, index_object-IsStep}

module _ ⦃bolt : Bolt⦄ where
  open bolt use {Bucket, get, put}

  step-Partly :
      (tx t : Tx Bucket) (o : ObjectVersion) (os : List ObjectVersion)
      → Partly tx (o ∷ os)
      → IsStep tx o os t
      → Partly t os
  unfolding Partly Listed
  step-Partly tx t o os h (f, own) k p e = elim (Bool-cases (bytes_eq k o.id)) [
    | inl same ↦
        let at : k ≡ o.id = (bytes_eq_iff k o.id).0 same in
        subst (λ j. IsIndexed t.db j p ⊎ ((p.id ≡ j) × Listed os p)) (sym at)
          (own p (ap (get t.objects) (sym at) ∙ e))
    | inr other ↦
        let ne : k ≢ o.id = ne_of_bytes_eq k o.id other in
        elim (h k p (sym (f.objects k ne) ∙ e)) [
          | inl i ↦ inl (IsIndexed-Frame o.id tx.db t.db k p f ne i)
          | inr (own_id, inl q) ↦ absurd (ne (sym own_id ∙ ap (λ (x : ObjectVersion). x.id) q))
          | inr (own_id, inr more) ↦ inr (own_id, more)
        ]
  ]

  index_objects-Partly :
      (now : Instant) (os : List ObjectVersion) (tx : Tx Bucket)
      → ((p : ObjectVersion) → Listed os p → IsSound p)
      → Partly tx os
      → Partly (index_objects now tx os) []
  unfolding index_objects Listed
  index_objects-Partly now [] tx s h = h
  index_objects-Partly now (o ∷ os) tx s h =
      let t : Tx Bucket = index_object now tx o o.state in
      index_objects-Partly now os t (λ p l. s p (inr l))
        (step-Partly tx t o os h (index_object-IsStep now tx o os o.state refl (s o (inl refl)) h))

  indexed-IsConsistent : (tx : Tx Bucket) → Partly tx [] → IsConsistent tx.db
  unfolding Partly Listed
  indexed-IsConsistent tx h = record {
    at_key = λ k p e. elim (h k p e) [ inl i ↦ i | inr (own, none_left) ↦ absurd none_left ];
  }

  index_objects-Shelving :
      (now : Instant) (os : List ObjectVersion) (tx : Tx Bucket)
      → ((p : ObjectVersion) → Listed os p → IsSound p)
      → Partly tx os
      → Shelving tx os
      → Shelving (index_objects now tx os) []
  unfolding index_objects Listed
  index_objects-Shelving now [] tx s h g = g
  index_objects-Shelving now (o ∷ os) tx s h g =
      let t : Tx Bucket = index_object now tx o o.state in
      let sound : IsSound o = s o (inl refl) in
      let step = index_object-IsStep now tx o os o.state refl sound h in
      index_objects-Shelving now os t (λ p l. s p (inr l)) (step-Partly tx t o os h step)
        (step-Shelving tx t o os g step.0 (
          index_object-IsShelfStep now tx o o.state refl
            (λ _. (delete_object_tx-IsDeleted now tx o (codes "committed") sound.id_clean).1)))

  indexed-AreShelved : (tx : Tx Bucket) → Shelving tx [] → AreShelved tx.db
  unfolding Shelving Listed
  indexed-AreShelved tx h = record {
    shelf = λ k p e. elim (h k p e) [ inl i ↦ i | inr (own, none_left) ↦ absurd none_left ];
  }

  -- The buckets that the two are about.
  record IsSame (a b : Db Bucket) : Type 0 where
    objects : b.objects ≡ a.objects
    queue : b.queue ≡ a.queue
    queue_seg : b.queue_seg ≡ a.queue_seg
    leases : b.leases ≡ a.leases
    held : b.held ≡ a.held
    parked : b.parked ≡ a.parked

  IsSame-refl : (a : Db Bucket) → IsSame a a
  IsSame-refl a = record {
    objects = refl;
    queue = refl;
    queue_seg = refl;
    leases = refl;
    held = refl;
    parked = refl;
  }

  IsSame-trans : (a b c : Db Bucket) → IsSame a b → IsSame b c → IsSame a c
  IsSame-trans a b c s t = record {
    objects = t.objects ∙ s.objects;
    queue = t.queue ∙ s.queue;
    queue_seg = t.queue_seg ∙ s.queue_seg;
    leases = t.leases ∙ s.leases;
    held = t.held ∙ s.held;
    parked = t.parked ∙ s.parked;
  }

  same-AreShelved : (a b : Db Bucket) → IsSame a b → AreShelved a → AreShelved b
  same-AreShelved a b s v = record {
    shelf = λ k p e.
        let i = v.shelf k p (ap (λ t. get t k) (sym s.objects) ∙ e) in
        (
          λ h. ap (λ t. get t (time_id_key p.created_at k)) s.held ∙ i.0 h,
          λ h. ap (λ t. get t (parked_key p.tenant p.parked_at k)) s.parked ∙ i.1 h,
        );
  }

  index_uploads-IsSame : (m : Assoc Upload) (db : Db Bucket) → IsSame db (index_uploads db m)
  unfolding index_uploads
  index_uploads-IsSame [] db = IsSame-refl db
  index_uploads-IsSame ((k, u) ∷ m) db =
      let next : Db Bucket = index_uploads db ((k, u) ∷ []) in
      IsSame-trans db next _
        (record {
          objects = refl;
          queue = refl;
          queue_seg = refl;
          leases = refl;
          held = refl;
          parked = refl;
        })
        (index_uploads-IsSame m next)

  drop_stale_claims-IsSame : (m : Assoc Claim) (db : Db Bucket) → IsSame db (drop_stale_claims db m)
  unfolding drop_stale_claims
  drop_stale_claims-IsSame [] db = IsSame-refl db
  drop_stale_claims-IsSame ((k, c) ∷ m) db =
      let next : Db Bucket = drop_stale_claims db ((k, c) ∷ []) in
      IsSame-trans db next _
        (record {
          objects = refl;
          queue = refl;
          queue_seg = refl;
          leases = refl;
          held = refl;
          parked = refl;
        })
        (drop_stale_claims-IsSame m next)

  index_tombstones-IsSame :
      (m : Assoc Tombstone) (db : Db Bucket) → IsSame db (index_tombstones db m)
  unfolding index_tombstones
  index_tombstones-IsSame [] db = IsSame-refl db
  index_tombstones-IsSame ((k, t) ∷ m) db =
      let next : Db Bucket = index_tombstones db ((k, t) ∷ []) in
      IsSame-trans db next _
        (record {
          objects = refl;
          queue = refl;
          queue_seg = refl;
          leases = refl;
          held = refl;
          parked = refl;
        })
        (index_tombstones-IsSame m next)

module _ ⦃bolt : Bolt⦄ where
  open bolt use {Bucket, get, entries, ascending, get_entries}

  -- Whatever the index buckets held, of a catalog whose objects stand under their own ids, without
  -- NUL, and have a sequence number only if they are READY or LEASED, a rebuild makes one in which
  -- each READY object stands in both queues at its sequence number, each LEASED one in the expiry
  -- index, each HELD one in the index by creation and each PARKED one in its tenant's index by the
  -- time it was parked, and in which only a READY object has a sequence number.
  pub rebuild_indexes-IsConsistent :
      (now : Instant) (db : Db Bucket)
      → ((k : Bytes) (o : ObjectVersion) → get db.objects k ≡ some o → (o.id ≡ k) × IsSound o)
      → IsConsistent (rebuild_indexes now db) × AreShelved (rebuild_indexes now db)
  unfolding rebuild_indexes clear_indexes Partly Shelving
  rebuild_indexes-IsConsistent now db own =
      let os : List ObjectVersion = sort_objects_by_version (entries db.objects) in
      let start : Tx Bucket = record { db = clear_indexes db; delta = no_delta } in
      let indexed : Tx Bucket = index_objects now start os in
      let uploaded : Db Bucket = index_uploads indexed.db (entries indexed.uploads) in
      let claimed : Db Bucket = drop_stale_claims uploaded (entries uploaded.claims) in
      let sound : (p : ObjectVersion) → Listed os p → IsSound p = λ p l.
        let (k, e) = Listed-sort (entries db.objects) p (ascending db.objects) l in
        (own k p (get_entries db.objects k ∙ e)).1 in
      let all_listed : (k : Bytes) (p : ObjectVersion)
          → get db.objects k ≡ some p
          → (p.id ≡ k) × Listed os p =
        λ k p e. (
          (own k p e).0,
          sort-Listed (entries db.objects) k p (sym (get_entries db.objects k) ∙ e),
        ) in
      let to_come : Partly start os = λ k p e. inr (all_listed k p e) in
      let all : Partly indexed [] = index_objects-Partly now os start sound to_come in
      let shelved : Shelving indexed [] =
        index_objects-Shelving now os start sound to_come (λ k p e. inr (all_listed k p e)) in
      let same : IsSame indexed.db (rebuild_indexes now db) =
        IsSame-trans indexed.db uploaded _
          (index_uploads-IsSame (entries indexed.uploads) indexed.db)
          (IsSame-trans uploaded claimed _
            (drop_stale_claims-IsSame (entries uploaded.claims) uploaded)
            (index_tombstones-IsSame (entries claimed.tombstones) claimed)) in
      (
        same-IsConsistent indexed.db (rebuild_indexes now db) (indexed-IsConsistent indexed all)
            same.objects same.queue same.queue_seg same.leases,
        same-AreShelved indexed.db (rebuild_indexes now db) same
            (indexed-AreShelved indexed shelved),
      )
