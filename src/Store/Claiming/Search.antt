-- ===== src/Store/Claiming/Search.antt =====
-- What `findCandidates` of internal/store/delivery.go finds.
use xsync.Prelude.{
  ℕ, ◌≤◌, ◌≡◌, ◌≢◌, ◌⊎◌, true, List, [], ◌∷◌, ltb, if◌then◌else◌, if_intro, All, All-map, arith,
}
use xsync.Prelude.Bytes.{Bytes, bytes_eq, bytes_eq_iff, has_prefix}
use xsync.Prelude.Assoc.{Assoc}
use xsync.Bolt.{Bolt}
use xsync.Store.Path.{path_has_prefix}
use xsync.Store.Keys.{Instant, parse_queue_value, parse_tail_key}
use xsync.Store.Tx.{Db}
use xsync.Store.Claiming.{
  max_claim_scan, Candidate, scan, insert_candidate, sort_candidates, seek_text, find_candidates,
}

-- The candidate is the number and the id in the key of an entry of the walk. The key begins with the
-- search text, and the entry's value has a time that has come and a path under the prefix.
pub IsHit : Bytes → Bytes → Instant → Assoc Bytes → Candidate → Type 0
IsHit text prefix now [] c = ⊥
IsHit text prefix now ((k, v) ∷ m) c =
    ((c.seq ≡ (parse_tail_key k).0)
      × (c.id ≡ (parse_tail_key k).1)
      × (has_prefix k text ≡ true)
      × ((parse_queue_value v).0 ≤ now)
      × ((prefix ≡ []) ⊎ (path_has_prefix (parse_queue_value v).1 prefix ≡ true)))
    ⊎ IsHit text prefix now m c

-- Ascending sequence numbers.
pub IsInOrder : List Candidate → Type 0
IsInOrder [] = Unit
IsInOrder (c ∷ cs) = All (λ d. c.seq ≤ d.seq) cs × IsInOrder cs

module _ (P : Candidate → Type 0) where
  insert-All :
      (c : Candidate) (cs : List Candidate) → P c → All P cs → All P (insert_candidate c cs)
  unfolding insert_candidate
  insert-All c [] p h = (p, tt)
  insert-All c (d ∷ ds) p h =
      if_intro (All P) (ltb d.seq c.seq) (λ _. (h.0, insert-All c ds p h.1)) (λ _. (p, h))

insert-IsInOrder :
    (c : Candidate) (cs : List Candidate) → IsInOrder cs → IsInOrder (insert_candidate c cs)
unfolding insert_candidate IsInOrder
insert-IsInOrder c [] h = (tt, tt)
insert-IsInOrder c (d ∷ ds) h =
    if_intro IsInOrder (ltb d.seq c.seq)
      (λ e. (insert-All (λ x. d.seq ≤ x.seq) c ds (ground arith) h.0, insert-IsInOrder c ds h.1))
      (λ e. let le : c.seq ≤ d.seq = ground arith in ((le, All-map (λ x l. omega arith) ds h.0), h))

sort-IsInOrder : (cs : List Candidate) → IsInOrder (sort_candidates cs)
unfolding sort_candidates IsInOrder
sort-IsInOrder [] = tt
sort-IsInOrder (c ∷ cs) = insert-IsInOrder c (sort_candidates cs) (sort-IsInOrder cs)

module _ ⦃bolt : Bolt⦄ where
  open bolt use {Bucket, seek}

  -- The walk that the search takes: over the tenant's whole queue, or over the queue of the prefix's
  -- first segment.
  abbrev pub walk : Db Bucket → Bytes → Bytes → Assoc Bytes
  walk db tenant prefix =
      let text = seek_text tenant prefix in
      if bytes_eq prefix [] then seek db.queue text else seek db.queue_seg text

  -- Under a prefix, what a search finds comes in the order of the sequence numbers.
  pub find_candidates-IsInOrder :
      (db : Db Bucket) (tenant prefix : Bytes) (max : ℕ) (now : Instant)
      → prefix ≢ []
      → IsInOrder (find_candidates db tenant prefix max now)
  unfolding find_candidates
  find_candidates-IsInOrder db tenant prefix max now n =
      if_intro IsInOrder (bytes_eq prefix []) (λ e. absurd (n ((bytes_eq_iff prefix []).0 e)))
        (λ _. sort-IsInOrder (
          scan (seek_text tenant prefix) prefix now max_claim_scan max
            (seek db.queue_seg (seek_text tenant prefix))))
