-- ===== src/Upload/Coverage/Normal.antt =====
-- The order of the spans of `coverage` (internal/store/upload.go), and the gaps between them.
use xsync.Prelude.{ℕ, suc, ◌≤◌, ◌<◌, [], ◌∷◌, arith, ltb, leb, if_intro}
use xsync.Upload.Coverage.{Span, Coverage, insert_span, merge_from, merge, add, clip}

-- Each span begins past the end of the one before, which is below `lo`.
abbrev pub Apart : ℕ → Coverage → Type 0
Apart lo [] = Unit {0}
Apart lo (s ∷ ss) = (lo ≤ s.from) × (s.from < s.upto) × Apart (suc s.upto) ss

abbrev pub IsNormal : Coverage → Type 0
IsNormal = Apart 0

-- Nonempty spans in the order of their starts, as after the sort.
abbrev pub IsSorted : ℕ → Coverage → Type 0
IsSorted lo [] = Unit {0}
IsSorted lo (s ∷ ss) = (lo ≤ s.from) × (s.from < s.upto) × IsSorted s.from ss

pub Apart-mono : (lo hi : ℕ) (c : Coverage) → lo ≤ hi → Apart hi c → Apart lo c
Apart-mono lo hi [] h a = tt
Apart-mono lo hi (s ∷ ss) h a = (omega arith, a.1, a.2)

pub Apart-IsSorted : (lo m : ℕ) (c : Coverage) → m ≤ lo → Apart lo c → IsSorted m c
Apart-IsSorted lo m [] h a = tt
Apart-IsSorted lo m (s ∷ ss) h a =
    (omega arith, a.1, Apart-IsSorted (suc s.upto) s.from ss (omega arith) a.2)

pub IsSorted-mono : (lo hi : ℕ) (c : Coverage) → lo ≤ hi → IsSorted hi c → IsSorted lo c
IsSorted-mono lo hi [] h a = tt
IsSorted-mono lo hi (s ∷ ss) h a = (omega arith, a.1, a.2)

pub insert_span-IsSorted :
    (lo : ℕ) (s : Span) (c : Coverage)
    → lo ≤ s.from
    → s.from < s.upto
    → IsSorted lo c
    → IsSorted lo (insert_span s c)
unfolding insert_span
insert_span-IsSorted lo s [] h n c = (h, n, tt)
insert_span-IsSorted lo s (t ∷ ts) h n c =
    if_intro (IsSorted lo) (ltb t.from s.from)
      (λ after. (c.0, c.1, insert_span-IsSorted t.from s ts (ground arith) n c.2))
      (λ before. (h, n, (ground arith, c.1, c.2)))

merge_from-Apart :
    (lo : ℕ) (last : Span) (c : Coverage)
    → lo ≤ last.from
    → last.from < last.upto
    → IsSorted last.from c
    → Apart lo (merge_from last c)
unfolding merge_from
merge_from-Apart lo last [] h n c = (h, n, tt)
merge_from-Apart lo last (s ∷ ss) h n c =
    if_intro (Apart lo) (leb s.from last.upto)
      (λ touch.
        if_intro (λ l. Apart lo (merge_from l ss)) (ltb last.upto s.upto)
          (λ longer.
            merge_from-Apart lo (record last { upto = s.upto }) ss h (omega arith)
              (IsSorted-mono last.from s.from ss (omega arith) c.2))
          (λ inside.
            merge_from-Apart lo last ss h n (IsSorted-mono last.from s.from ss (omega arith) c.2)))
      (λ gap. (h, n, merge_from-Apart (suc last.upto) s ss (ground arith) c.1 c.2))

merge-Apart : (c : Coverage) → IsSorted 0 c → Apart 0 (merge c)
unfolding merge
merge-Apart [] h = tt
merge-Apart (s ∷ ss) h = merge_from-Apart 0 s ss h.0 h.1 h.2

-- Adding a range to a normal coverage keeps its spans sorted, nonempty and apart.
pub add-IsNormal : (c : Coverage) (a b : ℕ) → IsNormal c → IsNormal (add c a b)
unfolding add
add-IsNormal c a b h =
    if_intro (Apart 0) (leb b a) (λ _. h)
      (λ e. merge-Apart (insert_span (record { from = a; upto = b }) c) (
        insert_span-IsSorted 0 (record { from = a; upto = b }) c (omega arith) (ground arith)
          (Apart-IsSorted 0 0 c (omega arith) h)))

clip-Apart : (lo : ℕ) (c : Coverage) (size : ℕ) → Apart lo c → Apart lo (clip c size)
unfolding clip
clip-Apart lo [] size h = tt
clip-Apart lo (s ∷ ss) size h =
    let rest = clip-Apart (suc s.upto) ss size h.2 in
    if_intro (Apart lo) (leb size s.from)
      (λ _. Apart-mono lo (suc s.upto) (clip ss size) (omega arith) rest)
      (λ below.
        if_intro (Apart lo) (ltb size s.upto)
          (λ cut. (
            h.0,
            ground arith,
            Apart-mono (suc size) (suc s.upto) (clip ss size) (ground arith) rest,
          ))
          (λ _. (h.0, h.1, rest)))

-- So does cutting the file back to `size`.
pub clip-IsNormal : (c : Coverage) (size : ℕ) → IsNormal c → IsNormal (clip c size)
clip-IsNormal c size h = clip-Apart 0 c size h
