-- ===== src/Store/Recover/Finishing.antt =====
-- `recoverFinalizing` of internal/store/maintain.go finishes what `finalize` began.
use xsync.Prelude.{
  ◌≡◌, ◌∙◌, sym, ap, none, some, true, ◌&&◌, length, if_intro, Option-cases, inl, inr, arith,
}
use xsync.Prelude.Bytes.{Bytes}
use xsync.Bolt.{Bolt}
use xsync.Model.{Upload}
use xsync.Store.Error.{Error, Result, ok, err}
use xsync.Store.Delete.{is_some}
use xsync.Store.Policy.{Policy}
use xsync.Store.Handle.{Os, Session, first_some, blob_path}
use xsync.Store.Handle.Closing.{publish_update, fail_upload}
use xsync.Store.Handle.Published.{
  IsStored, Kept, OnSuccess, OnSuccess-ok, fail_upload-OnSuccess, publish_update-Shows,
  finalize-Shows,
}
use xsync.Store.Recover.{publish_moved, recover_finalizing}

module _ ⦃bolt : Bolt⦄ where
  open bolt use {get}

  module _ (root : Bytes) (text : Error → Bytes) (sha : Bytes → Bytes)
      (policy : Bytes → Policy) where
    publish_moved-Shows :
        (os : Os) (u : Upload) (content : Bytes) (s : Session)
        → s.disk (blob_path root u.tenant u.id) ≡ some content
        → OnSuccess
            (Kept root text sha policy s.h u content s.store)
            (publish_moved root text sha policy os u s)
    unfolding publish_moved
    publish_moved-Shows os u content s d =
        let P = Kept root text sha policy s.h u content s.store in
        rw (d, publish_moved)
          (if_intro (OnSuccess P) os.hash_ok
            (λ _.
              finish
                (publish_update (policy u.tenant) os u (blob_path root u.tenant u.id) (sha content)
                  (length content) none s)
                (publish_update-Shows root text sha policy (policy u.tenant) os u content none s d))
            (λ _. fail_upload-OnSuccess root text sha policy P os u Error.other s))
      where
        finish :
            (x : Session × Result (Unit {0}))
            → OnSuccess (Kept root text sha policy s.h u content s.store) x
            → OnSuccess (Kept root text sha policy s.h u content s.store) (elim x.1 [
              | err e ↦ fail_upload root text sha policy os u e x.0
              | ok _ ↦ (x.0, ok tt)
            ])
        finish (t, err e) p =
            fail_upload-OnSuccess root text sha policy
              (Kept root text sha policy s.h u content s.store) os u e t
        finish (t, ok _) p = p

    -- Of an upload that a crash left between two steps of `finalize`, before or after the file was
    -- moved: if the recovery of it returns no error, and the catalog had no object with its id, then
    -- the blob is in place with the content of the file, and the catalog has it under the path, with
    -- its length and its digest.
    pub recover_finalizing-IsStored :
        (os : Os) (u : Upload) (content : Bytes) (s : Session)
        → os.stat_ok ≡ true
        → first_some (s.disk u.staging_path) (s.disk (blob_path root u.tenant u.id)) ≡ some content
        → get s.store.db.objects u.id ≡ none
        → (recover_finalizing root text sha policy os u s).1 ≡ ok tt
        → IsStored root sha u content
            (recover_finalizing root text sha policy os u s).0.disk
            (recover_finalizing root text sha policy os u s).0.store.db
    unfolding recover_finalizing first_some
    recover_finalizing-IsStored os u content s stat left new done =
        (OnSuccess-ok P (recover_finalizing root text sha policy os u s) done shown).1 new
      where
        P : Session → Type 0
        P = Kept root text sha policy s.h u content s.store

        shown : OnSuccess P (recover_finalizing root text sha policy os u s)
        shown =
            if_intro (OnSuccess P) (os.stat_ok && is_some (s.disk u.staging_path))
              (λ t. elim (Option-cases (s.disk u.staging_path)) [
                | inl e ↦ ground (arith, t, e)
                | inr (c, e) ↦
                    finalize-Shows root text sha policy os u content none none s
                      (e
                        ∙ ap (λ o. first_some o (s.disk (blob_path root u.tenant u.id))) (sym e)
                        ∙ left)
                      (λ fed f. cc (f))
              ])
              (λ t. elim (Option-cases (s.disk u.staging_path)) [
                | inl e ↦
                    publish_moved-Shows os u content s (
                      ap (λ o. first_some o (s.disk (blob_path root u.tenant u.id))) (sym e) ∙ left)
                | inr (c, e) ↦ ground (arith, stat, t, e)
              ])
