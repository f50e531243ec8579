-- ===== src/Store/Index/Refilling.antt =====
-- The steps of `rebuildIndexes` of internal/store/schema.go, one for each object.
use xsync.Prelude.{◌≡◌, ◌≢◌, ◌⊎◌, refl, sym, subst, ◌∙◌, ap, some, List, [], ◌∷◌, inl, inr}
use xsync.Prelude.Bytes.{Bytes, Lacks, codes}
use xsync.Bolt.{Bolt}
use xsync.Model.{State, ObjectVersion}
use xsync.Store.Keys.{Instant, nul, time_id_key}
use xsync.Store.Tx.{Tx, Db}
use xsync.Store.Delivery.{put_object}
use xsync.Store.Rebuild.{index_leased, index_ready, index_object}
use xsync.Store.Index.{IsIndexed}
use xsync.Store.Index.Sorting.{Listed}
use xsync.Store.Index.Framing.{Frame-same, Frame-trans, Frame-put_lease, Frame-put_object}
use xsync.Store.Index.Deletion.{Touches, delete_object_tx-IsDeleted}
use xsync.Store.Index.Placing.{get-put_self, own_put, IsIndexed-idle, tail-Touches, tail-IsIndexed}
use xsync.Store.Index.Outcomes.{IsIndexed-same}

-- What a rebuild needs of a record: its id has no NUL, and only a READY or LEASED one has been
-- queued.
pub record IsSound (o : ObjectVersion) : Type 0 where
  pub id_clean : Lacks nul o.id
  pub idle : o.state ≢ State.ready → o.state ≢ State.leased → o.queue_seq ≡ 0

module _ ⦃bolt : Bolt⦄ where
  open bolt use {Bucket, get, put}

  -- Each object is indexed, or it is still to come.
  unfoldable pub Partly : Tx Bucket → List ObjectVersion → Type 0
  Partly tx os =
      (k : Bytes) (p : ObjectVersion)
      → get tx.objects k ≡ some p
      → IsIndexed tx.db k p ⊎ ((p.id ≡ k) × Listed os p)

  -- A step on the object `o` touches nothing else, and indexes what is then under its id.
  abbrev pub IsStep : Tx Bucket → ObjectVersion → List ObjectVersion → Tx Bucket → Type 0
  IsStep tx o os t =
      Touches o.id tx t
      × ((p : ObjectVersion)
          → get t.objects o.id ≡ some p
          → IsIndexed t.db o.id p ⊎ ((p.id ≡ o.id) × Listed os p))

  ready-IsStep :
      (tx : Tx Bucket) (o : ObjectVersion) (os : List ObjectVersion)
      → IsSound o
      → o.state ≡ State.ready
      → IsStep tx o os (index_ready tx o)
  unfolding index_ready
  ready-IsStep tx o os s e =
      let o' : ObjectVersion = record o { queue_key = [] } in
      (
        tail-Touches tx o' o.visible_at s.id_clean,
        λ p f. inl (tail-IsIndexed tx o' o.visible_at s.id_clean e p f),
      )

  leased-IsStep :
      (tx : Tx Bucket) (o : ObjectVersion) (os : List ObjectVersion)
      → IsSound o
      → o.state ≡ State.leased
      → IsStep tx o os (index_leased tx o)
  unfolding index_leased put_object
  leased-IsStep tx o os s e =
      let entered : Db Bucket = record tx.db {
        leases = put tx.leases (time_id_key o.lease_until o.id) o.lease_id;
      } in
      let o' : ObjectVersion = record o { queue_seq = 0; queue_key = [] } in
      (
        Frame-trans o.id tx.db entered _ (Frame-put_lease tx.db o.id o.lease_until o.lease_id)
            (Frame-put_object entered o.id o'),
        λ p f. inl (
            own_put entered o.id o'
              (record {
                own_id = refl;
                id_clean = s.id_clean;
                queued = λ r. cc (r, e);
                unqueued = λ _. refl;
                leased = λ _. get-put_self tx.leases (time_id_key o.lease_until o.id) o.lease_id;
              })
              p f),
      )

  idle-IsStep :
      (tx t : Tx Bucket) (o : ObjectVersion) (os : List ObjectVersion)
      → IsSound o
      → o.state ≢ State.ready
      → o.state ≢ State.leased
      → t.objects ≡ tx.objects
      → t.queue ≡ tx.queue
      → t.queue_seg ≡ tx.queue_seg
      → t.leases ≡ tx.leases
      → Partly tx (o ∷ os)
      → IsStep tx o os t
  unfolding Partly Listed
  idle-IsStep tx t o os s r l eo eq eqs el h = (
    Frame-same o.id tx.db t.db eo eq eqs el,
    λ p f. elim (h o.id p (ap (λ b. get b o.id) (sym eo) ∙ f)) [
      | inl i ↦ inl (IsIndexed-same tx.db t.db o.id p i eq eqs el)
      | inr (own, inl e) ↦ inl (
          subst (λ q. IsIndexed t.db o.id q) (sym e)
            (IsIndexed-idle t.db o s.id_clean r l (s.idle r l)))
      | inr (own, inr more) ↦ inr (own, more)
    ],
  )

  pub index_object-IsStep :
      (now : Instant) (tx : Tx Bucket) (o : ObjectVersion) (os : List ObjectVersion) (s : State)
      → o.state ≡ s
      → IsSound o
      → Partly tx (o ∷ os)
      → IsStep tx o os (index_object now tx o s)
  unfolding index_object
  index_object-IsStep now tx o os State.ready e s h = ready-IsStep tx o os s e
  index_object-IsStep now tx o os State.leased e s h = leased-IsStep tx o os s e
  index_object-IsStep now tx o os State.delete_pending e s h =
      let gone = delete_object_tx-IsDeleted now tx o (codes "committed") s.id_clean in
      (gone.0, λ p f. cc (f, gone.1))
  index_object-IsStep now tx o os State.held e s h =
      idle-IsStep tx (index_object now tx o State.held) o os s (λ r. cc (r, e)) (λ l. cc (l, e))
        refl refl refl refl h
  index_object-IsStep now tx o os State.parked e s h =
      idle-IsStep tx (index_object now tx o State.parked) o os s (λ r. cc (r, e)) (λ l. cc (l, e))
        refl refl refl refl h
  index_object-IsStep now tx o os State.uploading e s h =
      idle-IsStep tx tx o os s (λ r. cc (r, e)) (λ l. cc (l, e)) refl refl refl refl h
  index_object-IsStep now tx o os State.finalizing e s h =
      idle-IsStep tx tx o os s (λ r. cc (r, e)) (λ l. cc (l, e)) refl refl refl refl h
  index_object-IsStep now tx o os State.interrupted e s h =
      idle-IsStep tx tx o os s (λ r. cc (r, e)) (λ l. cc (l, e)) refl refl refl refl h
  index_object-IsStep now tx o os State.failed e s h =
      idle-IsStep tx tx o os s (λ r. cc (r, e)) (λ l. cc (l, e)) refl refl refl refl h
