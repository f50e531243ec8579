-- ===== src/Upload/Coverage/Contents.antt =====
-- Which bytes a coverage holds: `add`, `clip`, `contiguous` and `covers` against a set of offsets.
use xsync.Prelude.{
  ℕ, suc, ◌≤◌, ◌<◌, ◌≡◌, ◌↔◌, refl, Bool, true, false, ◌&&◌, ◌||◌, [], ◌∷◌, arith, ltb, leb,
  if_intro,
}
use xsync.Upload.Coverage.{
  Span, Coverage, insert_span, merge_from, merge, add, clip, contiguous, covers, end,
}
use xsync.Upload.Coverage.Normal.{
  Apart, IsNormal, IsSorted, IsSorted-mono, insert_span-IsSorted, Apart-IsSorted,
}

abbrev pub in_span : Span → ℕ → Bool
in_span s x = leb s.from x && ltb x s.upto

-- The byte at offset `x` is intended data.
abbrev pub covered : Coverage → ℕ → Bool
covered [] x = false
covered (s ∷ ss) x = in_span s x || covered ss x

covered-insert_span :
    (s : Span) (c : Coverage) (x : ℕ) → covered (insert_span s c) x ≡ (in_span s x || covered c x)
unfolding insert_span
covered-insert_span s [] x = refl
covered-insert_span s (t ∷ ts) x =
    if_intro (λ l. covered l x ≡ (in_span s x || (in_span t x || covered ts x))) (ltb t.from s.from)
      (λ _. ground (arith, covered-insert_span s ts x)) (λ _. refl)

covered-merge_from :
    (last : Span) (c : Coverage) (x : ℕ)
    → last.from < last.upto
    → IsSorted last.from c
    → covered (merge_from last c) x ≡ (in_span last x || covered c x)
unfolding merge_from
covered-merge_from last [] x n h = refl
covered-merge_from last (s ∷ ss) x n h =
    if_intro (λ l. covered l x ≡ (in_span last x || (in_span s x || covered ss x)))
      (leb s.from last.upto)
      (λ touch.
        if_intro
          (λ l. covered (merge_from l ss) x ≡ (in_span last x || (in_span s x || covered ss x)))
          (ltb last.upto s.upto)
          (λ longer. ground (
            arith,
            covered-merge_from (record last { upto = s.upto }) ss x (omega arith)
                (IsSorted-mono last.from s.from ss (omega arith) h.2),
          ))
          (λ inside. ground (
            arith,
            covered-merge_from last ss x n (IsSorted-mono last.from s.from ss (omega arith) h.2),
          )))
      (λ gap. ground (arith, covered-merge_from s ss x h.1 h.2))

covered-merge : (c : Coverage) (x : ℕ) → IsSorted 0 c → covered (merge c) x ≡ covered c x
unfolding merge
covered-merge [] x h = refl
covered-merge (s ∷ ss) x h = covered-merge_from s ss x h.1 h.2

-- Adding [a, b) to a normal coverage adds exactly the bytes of [a, b).
pub covered-add :
    (c : Coverage) (a b x : ℕ)
    → IsNormal c
    → covered (add c a b) x ≡ (covered c x || (leb a x && ltb x b))
unfolding add
covered-add c a b x h =
    if_intro (λ l. covered l x ≡ (covered c x || (leb a x && ltb x b))) (leb b a)
      (λ empty. ground arith)
      (λ e.
        let s : Span = record { from = a; upto = b } in
        let sorted : IsSorted 0 (insert_span s c) =
          insert_span-IsSorted 0 s c (omega arith) (ground arith)
            (Apart-IsSorted 0 0 c (omega arith) h) in
        ground (arith, covered-merge (insert_span s c) x sorted, covered-insert_span s c x))

-- Cutting the file back to `size` keeps exactly the bytes below `size`.
pub covered-clip :
    (c : Coverage) (size x : ℕ) → covered (clip c size) x ≡ (covered c x && ltb x size)
unfolding clip
covered-clip [] size x = refl
covered-clip (s ∷ ss) size x =
    if_intro (λ l. covered l x ≡ ((in_span s x || covered ss x) && ltb x size)) (leb size s.from)
      (λ past. ground (arith, covered-clip ss size x))
      (λ below.
        if_intro (λ l. covered l x ≡ ((in_span s x || covered ss x) && ltb x size))
          (ltb size s.upto) (λ cut. ground (arith, covered-clip ss size x))
          (λ whole. ground (arith, covered-clip ss size x)))

pub covered_below : (lo : ℕ) (c : Coverage) (x : ℕ) → Apart lo c → x < lo → covered c x ≡ false
covered_below lo [] x h b = refl
covered_below lo (s ∷ ss) x h b = ground (arith, covered_below (suc s.upto) ss x h.2 (omega arith))

-- `contiguous` is the length of the longest gap-free prefix: all of it is covered, and the byte at
-- its end is not.
pub contiguous_exact :
    (c : Coverage)
    → IsNormal c
    → ((x : ℕ) → x < contiguous c → covered c x ≡ true) × (covered c (contiguous c) ≡ false)
unfolding contiguous
contiguous_exact [] h = ((λ x b. absurd (omega arith)), refl)
contiguous_exact (s ∷ ss) h = (
  (λ x b. ground arith),
  ground (arith, covered_below (suc s.upto) ss 0 h.2, covered_below (suc s.upto) ss s.upto h.2),
)

-- For a normal coverage `covers` decides whether every byte below `size` is covered.
pub covers_iff :
    (c : Coverage) (size : ℕ)
    → IsNormal c
    → (covers c size ≡ true) ↔ ((x : ℕ) → x < size → covered c x ≡ true)
unfolding covers
covers_iff c size h =
    let exact = contiguous_exact c h in
    ((λ e x b. exact.0 x (ground arith)), (λ all. ground (arith, exact.1, all (contiguous c))))

upto-le-end : (lo : ℕ) (s : Span) (c : Coverage) → Apart lo (s ∷ c) → s.upto ≤ end (s ∷ c)
unfolding end
upto-le-end lo s [] h = omega arith
upto-le-end lo s (t ∷ ts) h = omega (arith, upto-le-end (suc s.upto) t ts h.2)

-- No covered byte lies at or past `end`.
pub covered-lt-end : (lo : ℕ) (c : Coverage) (x : ℕ) → Apart lo c → covered c x ≡ true → x < end c
unfolding end
covered-lt-end lo [] x h e = cc
covered-lt-end lo (s ∷ []) x h e = ground arith
covered-lt-end lo (s ∷ t ∷ ts) x h e =
    ground (arith, upto-le-end (suc s.upto) t ts h.2, covered-lt-end (suc s.upto) (t ∷ ts) x h.2)
