-- ===== src/Store/Index/Sorting.antt =====
-- The objects under `sortObjectsByVersion` of internal/store/schema.go.
use xsync.Prelude.{
  ◌≡◌, ◌⊎◌, refl, sym, subst, ap, none, some, List, [], ◌∷◌, if_intro, arith, inl, inr,
}
use xsync.Prelude.Bytes.{Bytes, bytes_eq, bytes_eq_iff, bytes_eq_of_ne}
use xsync.Prelude.Assoc.{Assoc, lookup, IsAscending, lookup-Above}
use xsync.Model.{ObjectVersion}
use xsync.Store.Rebuild.{version_before, insert_by_version, sort_objects_by_version}

-- The object is in the list.
unfoldable pub Listed : List ObjectVersion → ObjectVersion → Type 0
Listed [] p = ⊥
Listed (o ∷ os) p = (p ≡ o) ⊎ Listed os p

Listed-insert :
    (o : ObjectVersion) (ps : List ObjectVersion) (p : ObjectVersion)
    → (p ≡ o) ⊎ Listed ps p
    → Listed (insert_by_version o ps) p
unfolding insert_by_version Listed
Listed-insert o [] p h = h
Listed-insert o (q ∷ ps) p h =
    if_intro (λ l. Listed l p) (version_before q o)
      (λ _. elim h [
        | inl e ↦ inr (Listed-insert o ps p (inl e))
        | inr (inl e) ↦ inl e
        | inr (inr l) ↦ inr (Listed-insert o ps p (inr l))
      ])
      (λ _. h)

insert-Listed :
    (o : ObjectVersion) (ps : List ObjectVersion) (p : ObjectVersion)
    → Listed (insert_by_version o ps) p
    → (p ≡ o) ⊎ Listed ps p
unfolding insert_by_version Listed
insert-Listed o [] p h = h
insert-Listed o (q ∷ ps) p h =
    if_intro (λ l. Listed l p → (p ≡ o) ⊎ ((p ≡ q) ⊎ Listed ps p)) (version_before q o)
      (λ _ m. elim m [
        | inl e ↦ inr (inl e)
        | inr l ↦ elim (insert-Listed o ps p l) [ inl e ↦ inl e | inr r ↦ inr (inr r) ]
      ])
      (λ _ m. m) h

pub sort-Listed :
    (m : Assoc ObjectVersion) (k : Bytes) (p : ObjectVersion)
    → lookup k m ≡ some p
    → Listed (sort_objects_by_version m) p
unfolding sort_objects_by_version lookup
sort-Listed [] k p h = cc (h)
sort-Listed ((j, o) ∷ m) k p h =
    if_intro (λ r. r ≡ some p → Listed (insert_by_version o (sort_objects_by_version m)) p)
      (bytes_eq j k) (λ _ e. Listed-insert o (sort_objects_by_version m) p (inl (ground arith)))
      (λ _ e. Listed-insert o (sort_objects_by_version m) p (inr (sort-Listed m k p e))) h

pub Listed-sort :
    (m : Assoc ObjectVersion) (p : ObjectVersion)
    → IsAscending m
    → Listed (sort_objects_by_version m) p
    → (k : Bytes) × (lookup k m ≡ some p)
unfolding sort_objects_by_version lookup Listed
Listed-sort [] p a h = absurd h
Listed-sort ((j, o) ∷ m) p a h = elim (insert-Listed o (sort_objects_by_version m) p h) [
  | inl e ↦ (j, rw ((bytes_eq_iff j j).1 refl) (ap (λ (x : ObjectVersion). some x) (sym e)))
  | inr l ↦
      let (k, e) = Listed-sort m p a.1 l in
      (
        k,
        rw
            (bytes_eq_of_ne j k
              (λ q. cc (e, subst (λ i. lookup i m ≡ none) q (lookup-Above j m a.0))))
            e,
      )
]
