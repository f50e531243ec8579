-- ===== src/Store/Index/Checking.antt =====
-- `Check` of internal/store/maintain.go beside the consistency of the catalog.
use xsync.Prelude.{◌≡◌, refl, subst, ◌∙◌, false, none, some, [], ◌∷◌, if_intro, arith}
use xsync.Prelude.Bytes.{Bytes, bytes_eq_iff, bytes_eq_of_ne}
use xsync.Prelude.Assoc.{Assoc, lookup, IsAscending, lookup-Above}
use xsync.Bolt.{Bolt}
use xsync.Model.{State, ObjectVersion}
use xsync.Store.Tx.{Db}
use xsync.Store.Delivery.{state_eq}
use xsync.Store.Maintain.{index_problem, check}
use xsync.Store.Index.{IsIndexed, IsConsistent}

module _ ⦃bolt : Bolt⦄ where
  open bolt use {Bucket, get, entries, ascending, get_entries}

  index_problem-IsIndexed :
      (db : Db Bucket) (k : Bytes) (o : ObjectVersion)
      → IsIndexed db k o
      → index_problem db o ≡ false
  unfolding index_problem state_eq
  index_problem-IsIndexed db k o i =
      if_intro (λ b. b ≡ false) (state_eq o.state State.ready)
        (λ e. let q = i.queued (ground arith) in let pos = q.2 in rw (i.own_id, q.0) (ground arith))
        (λ _.
          if_intro (λ b. b ≡ false) (state_eq o.state State.leased)
            (λ e. rw (i.own_id, i.leased (ground arith)) refl) (λ _. refl))

  check_walk :
      (db : Db Bucket) (m : Assoc ObjectVersion)
      → IsAscending m
      → ((k : Bytes) (o : ObjectVersion) → lookup k m ≡ some o → IsIndexed db k o)
      → check db m ≡ []
  unfolding check lookup
  check_walk db [] a h = refl
  check_walk db ((k, o) ∷ m) a h =
      let fine : index_problem db o ≡ false =
        index_problem-IsIndexed db k o (h k o (rw ((bytes_eq_iff k k).1 refl) refl)) in
      rw (fine) (
        check_walk db m a.1 (λ j p e. h j p (
          rw
            (bytes_eq_of_ne k j
              (λ q. cc (e, subst (λ i. lookup i m ≡ none) q (lookup-Above k m a.0))))
            e)))

  -- In a consistent catalog `Check` reports no index problem.
  pub check-IsConsistent : (db : Db Bucket) → IsConsistent db → check db (entries db.objects) ≡ []
  check-IsConsistent db v =
      check_walk db (entries db.objects) (ascending db.objects)
        (λ k o e. v.at_key k o (get_entries db.objects k ∙ e))
