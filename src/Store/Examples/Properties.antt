-- ===== src/Store/Examples/Properties.antt =====
-- The theorems on the store at the published and the claimed file.
use xsync.Prelude.{subst, sym, ◌*◌, ◌≡◌, refl, false, Option, some, none, List, [], ◌∷◌, arith}
use xsync.Prelude.Bytes.{Bytes, codes, bytes_eq, Lacks}
use xsync.Prelude.Assoc.{lookup, insert, from_key}
use xsync.Bolt.Memory.{Bucket, memory}
use xsync.Model.{ObjectVersion, Claim}
use xsync.Store.Error.{Error, err}
use xsync.Store.Ensures.{Ensures}
use xsync.Store.Tx.{Tx}
use xsync.Store.Glob.{path_match, path_base}
use xsync.Store.Policy.{default_policy, held}
use xsync.Store.Delivery.{ReleaseOptions, after_delivery, release_tx}
use xsync.Store.Outcome.{deleted, already_deleted, refused, commit_tx}
use xsync.Store.Lease.{second, extension, renew_tx}
use xsync.Store.Claiming.{claim_of, still_ready, take_lease, claim_all, find_candidates}
use xsync.Store.Claiming.Search.{IsInOrder, find_candidates-IsInOrder}
use xsync.Store.Namespace.{check_file_path, replace_path}
use xsync.Store.Publish.{publish_tx}
use xsync.Store.Rename.{rename_tx}
use xsync.Store.Maintain.{expire_all, due_leases, check}
use xsync.Store.Index.{IsConsistent}
use xsync.Store.Index.Operations.{Consistent}
use xsync.Store.Index.Paths.{publish_tx-IsConsistent}
use xsync.Store.Index.Renaming.{rename_tx-IsConsistent}
use xsync.Store.Index.Expiry.{expire_all-IsConsistent}
use xsync.Store.Keys.{nul}
use xsync.Store.Rebuild.{rebuild_indexes}
use xsync.Store.Index.Shelves.{AreShelved}
use xsync.Store.Index.Refilling.{IsSound}
use xsync.Store.Index.Rebuilding.{rebuild_indexes-IsConsistent}
use xsync.Store.Index.Checking.{check-IsConsistent}
use xsync.Store.Lifecycle.Claiming.{IsGrant, claim_all-IsGrant}
use xsync.Store.Lifecycle.Publication.{PlacedIn, publish_tx-IsPlaced}
use xsync.Store.Lifecycle.Commit.{commit_tx-twice, commit_tx-unchanged}
use xsync.Store.Lifecycle.Release.{fate, Shows, after_delivery-Shows, release_tx-once}
use xsync.Store.Lifecycle.Renewal.{extension-claim_of, IsAlive, IsRenewed, renew_tx-IsRenewed}
use xsync.Store.Run.{empty_store, step}
use xsync.Store.Run.Consistency.{Reach-IsConsistent}
use xsync.Store.Examples.{
  policy, upload, published, claimed, clean_id, claimed-Reach, u1, published_tx, claimed_tx,
  published-Consistent, claimed-Consistent, leased_object,
}
open memory use {get, entries}

Reach-IsConsistent_example : IsConsistent claimed.db
Reach-IsConsistent_example = Reach-IsConsistent policy claimed claimed-Reach

claim_all-IsGrant_example :
    Ensures
      (λ (r : Tx Bucket × List Claim). IsGrant published_tx r.0 r.1)
      (claim_all
        (codes "t")
        (codes "c")
        100
        20
        (record { seq = 1; id = u1 } ∷ [])
        (codes "L" ∷ [])
        published_tx)
claim_all-IsGrant_example =
    claim_all-IsGrant (codes "t") (codes "c") 100 20 (record { seq = 1; id = u1 } ∷ [])
      (codes "L" ∷ []) published_tx published-Consistent

committed :
    (commit_tx 30 claimed_tx (codes "t") u1 (codes "L") (codes "D1") 3).1 ≡ deleted leased_object
unfolding step lookup claim_all still_ready publish_tx empty_store check_file_path from_key held
    path_match path_base replace_path insert bytes_eq take_lease commit_tx
committed = refl

commit_tx-twice_example :
    let tx' = (commit_tx 30 claimed_tx (codes "t") u1 (codes "L") (codes "D1") 3).0 in
    (get tx'.objects u1 ≡ none)
    × (commit_tx 40 tx' (codes "t") u1 (codes "M") (codes "x") 4 ≡ (tx', already_deleted))
commit_tx-twice_example =
    commit_tx-twice 30 40 claimed_tx (codes "t") u1 (codes "L") (codes "M") (codes "D1") (codes "x")
      3 4 leased_object claimed-Consistent committed

wrong_lease :
    (commit_tx 30 claimed_tx (codes "t") u1 (codes "M") (codes "D1") 3).1
    ≡ refused Error.lease_mismatch
unfolding step lookup claim_all still_ready publish_tx empty_store check_file_path from_key held
    path_match path_base replace_path insert bytes_eq take_lease commit_tx
wrong_lease = refl

commit_tx-unchanged_example :
    (commit_tx 30 claimed_tx (codes "t") u1 (codes "M") (codes "D1") 3).0 ≡ claimed_tx
commit_tx-unchanged_example =
    commit_tx-unchanged 30 claimed_tx (codes "t") u1 (codes "M") (codes "D1") 3
      (λ o e. cc (e, wrong_lease))

renew_tx-IsRenewed_example :
    Ensures
      (λ (r : Tx Bucket × Claim).
        IsAlive claimed_tx (codes "t") (codes "L") 50 × IsRenewed r.0 (codes "L") 50 100 r.1)
      (renew_tx 50 claimed_tx (codes "t") (codes "L") 100)
renew_tx-IsRenewed_example =
    renew_tx-IsRenewed 50 claimed_tx (codes "t") (codes "L") 100 claimed-Consistent

abbrev give_up : ReleaseOptions
give_up = record { reason = codes "no"; retry_after = 7; permanent = false; uncounted = false }

release_tx-once_example :
    Ensures
      (λ (tx' : Tx Bucket).
        release_tx policy 60 tx' (codes "t") (codes "L") give_up ≡ err Error.not_found)
      (release_tx policy 50 claimed_tx (codes "t") (codes "L") give_up)
release_tx-once_example =
    release_tx-once policy policy 50 60 claimed_tx (codes "t") (codes "t") (codes "L") give_up
      give_up

after_delivery-Shows_example :
    Shows claimed_tx
      (after_delivery policy 50 claimed_tx leased_object give_up)
      leased_object
      57
      (fate default_policy leased_object give_up)
after_delivery-Shows_example =
    after_delivery-Shows policy 50 claimed_tx leased_object give_up clean_id

find_candidates-IsInOrder_example :
    IsInOrder (find_candidates published.db (codes "t") (codes "a") 2 20)
find_candidates-IsInOrder_example =
    find_candidates-IsInOrder published.db (codes "t") (codes "a") 2 20 (λ e. cc (e))

publish_tx-IsConsistent_example :
    Ensures
      (λ (r : Tx Bucket × Option ObjectVersion). Consistent r.0)
      (publish_tx default_policy 30 claimed_tx
        (record upload { id = codes "v" })
        (codes "b2")
        (codes "d2")
        4
        none)
publish_tx-IsConsistent_example =
    publish_tx-IsConsistent default_policy 30 claimed_tx (record upload { id = codes "v" })
      (codes "b2") (codes "d2") 4 none claimed-Consistent ((λ e. absurd (omega arith)), tt)

temporary_new : get claimed.db.objects (codes "v") ≡ none
unfolding step lookup claim_all still_ready publish_tx empty_store check_file_path from_key held
    path_match path_base take_lease replace_path insert bytes_eq
temporary_new = refl

-- A temporary name.
publish_tx-IsPlaced_example :
    Ensures
      (λ (r : Tx Bucket × Option ObjectVersion).
        PlacedIn default_policy 30 (record upload { id = codes "v"; path = codes "b.tmp" }) r.0.db)
      (publish_tx default_policy 30 claimed_tx
        (record upload { id = codes "v"; path = codes "b.tmp" })
        (codes "b2")
        (codes "d2")
        4
        none)
publish_tx-IsPlaced_example =
    publish_tx-IsPlaced default_policy 30 claimed_tx
      (record upload { id = codes "v"; path = codes "b.tmp" }) (codes "b2") (codes "d2") 4 none
      temporary_new

rename_tx-IsConsistent_example :
    Ensures
      (λ (r : Tx Bucket × List ObjectVersion). Consistent r.0)
      (rename_tx default_policy 30 published_tx (codes "t") (codes "a") (codes "b.tmp") false)
rename_tx-IsConsistent_example =
    rename_tx-IsConsistent default_policy 30 published_tx (codes "t") (codes "a") (codes "b.tmp")
      false published-Consistent

expire_all-IsConsistent_example :
    Consistent (expire_all policy 130 131 claimed_tx (due_leases claimed.db 130)).0
expire_all-IsConsistent_example =
    expire_all-IsConsistent policy 130 131 claimed_tx (due_leases claimed.db 130) claimed-Consistent

check-IsConsistent_example : check claimed.db (entries claimed.db.objects) ≡ []
check-IsConsistent_example = check-IsConsistent claimed.db claimed-Consistent

extension-claim_of_example :
    extension 0 (claim_of (codes "t") (codes "c") (60 * second) leased_object).lease_seconds
    ≡ 60 * second
extension-claim_of_example =
    extension-claim_of (codes "t") (codes "c") 60 leased_object (omega arith)

-- A lease of a second and a half is renewed by a second.
half_second_lost :
    extension 0 (claim_of (codes "t") (codes "c") 1_500_000_000 leased_object).lease_seconds
    ≡ second
unfolding claim_of extension
half_second_lost = refl

claimed_records :
    (k : Bytes) (o : ObjectVersion) → get claimed.db.objects k ≡ some o → (o.id ≡ k) × IsSound o
claimed_records k o e =
    let i = claimed-Consistent.at_key k o e in
    (
      i.own_id,
      record { id_clean = subst (Lacks nul) (sym i.own_id) i.id_clean; idle = λ r l. i.unqueued r },
    )

rebuild_indexes-IsConsistent_example :
    IsConsistent (rebuild_indexes 200 claimed.db) × AreShelved (rebuild_indexes 200 claimed.db)
rebuild_indexes-IsConsistent_example = rebuild_indexes-IsConsistent 200 claimed.db claimed_records
