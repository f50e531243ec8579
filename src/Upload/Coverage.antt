-- ===== src/Upload/Coverage.antt =====
-- The `coverage` of internal/store/upload.go: which byte ranges of a staging file hold intended
-- data. Offsets are nonnegative `int64` values, as every caller has checked.
pub mod Normal
pub mod Contents
use xsync.Prelude.{ℕ, Bool, true, List, [], ◌∷◌, ltb, leb, ◌==◌, if◌then◌else◌}

-- One element of `spans`: start and end.
pub record Span : Type 0 where
  pub from : ℕ
  pub upto : ℕ

abbrev pub Coverage : Type 0
Coverage = List Span

-- sort.Slice by start, of a list that is sorted but for the span appended to it.
unfoldable pub insert_span : Span → Coverage → Coverage
insert_span s [] = s ∷ []
insert_span s (t ∷ ts) = if ltb t.from s.from then t ∷ insert_span s ts else s ∷ t ∷ ts

-- The merging loop; `last` is merged[n-1].
unfoldable pub merge_from : Span → Coverage → Coverage
merge_from last [] = last ∷ []
merge_from last (s ∷ ss) =
    let extended =
      merge_from (if ltb last.upto s.upto then record last { upto = s.upto } else last) ss in
    let separate = last ∷ merge_from s ss in if leb s.from last.upto then extended else separate

unfoldable pub merge : Coverage → Coverage
unfolding merge_from
merge [] = []
merge (s ∷ ss) = merge_from s ss

unfoldable pub add : Coverage → ℕ → ℕ → Coverage
unfolding insert_span merge
add c start end =
    if leb end start then c else merge (insert_span (record { from = start; upto = end }) c)

unfoldable pub clip : Coverage → ℕ → Coverage
clip [] size = []
clip (s ∷ ss) size =
    let rest = clip ss size in
    if leb size s.from
    then rest
    else if ltb size s.upto
    then record s { upto = size } ∷ rest
    else s ∷ rest

unfoldable pub start : Coverage → ℕ
start [] = 0
start (s ∷ ss) = s.from

unfoldable pub end : Coverage → ℕ
end [] = 0
end (s ∷ []) = s.upto
end (s ∷ t ∷ ts) = end (t ∷ ts)

unfoldable pub contiguous : Coverage → ℕ
contiguous [] = 0
contiguous (s ∷ ss) = if s.from == 0 then s.upto else 0

unfoldable pub covers : Coverage → ℕ → Bool
unfolding contiguous
covers c size = if size == 0 then true else leb size (contiguous c)
