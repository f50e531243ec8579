-- ===== src/Upload/Examples.antt =====
-- Runs of the coverage and of the hasher of internal/store/upload.go.
use xsync.Prelude.{
  ℕ, ◌≡◌, ◌<◌, ◌↔◌, refl, true, inl, inr, some, none, List, [], ◌∷◌, ◌&&◌, ◌||◌, leb, ltb, arith,
}
use xsync.Upload.Coverage.{Coverage, add, covers}
use xsync.Upload.Coverage.Normal.{IsNormal}
use xsync.Upload.Coverage.Contents.{covered, covered-add, covers_iff}
use xsync.Upload.Hasher.{
  StreamHasher, new_stream_hasher, byte_at, chunk_at, drop_chunk, drain, result, File, read, Edit,
  written, truncated, edit_all,
}
use xsync.Upload.Hasher.Chunks.{drain-done}
use xsync.Upload.Hasher.Digest.{edit_all-result}
use xsync.Upload.Tracking.{SparseRun, EndsWritten, intended, stage_all}
use xsync.Upload.Coverage.{end}
use xsync.Upload.Tracking.Contents.{fresh_stage, fresh-Tracks, IsWhole, stage_all-refines}
use xsync.Upload.Hasher.InOrder.{consecutive, consecutive-result}

abbrev two_spans : Coverage
two_spans = record { from = 0; upto = 4 } ∷ record { from = 6; upto = 9 } ∷ []

two_spans-IsNormal : IsNormal two_spans
two_spans-IsNormal = (omega arith, omega arith, (omega arith, omega arith, tt))

-- The gap is filled and the spans become one.
filled : add two_spans 4 6 ≡ record { from = 0; upto = 9 } ∷ []
unfolding add
filled = refl

covered-add_example : covered (add two_spans 4 6) 5 ≡ (covered two_spans 5 || (leb 4 5 && ltb 5 6))
covered-add_example = covered-add two_spans 4 6 5 two_spans-IsNormal

covers_iff_example : (covers two_spans 5 ≡ true) ↔ ((x : ℕ) → x < 5 → covered two_spans x ≡ true)
covers_iff_example = covers_iff two_spans 5 two_spans-IsNormal

-- Two chunks in the wrong order.
abbrev swapped : List Edit
swapped = written (b'c' ∷ []) 2 ∷ written (b'a' ∷ b'b' ∷ []) 0 ∷ []

abbrev empty_file : File
empty_file = λ i. 0

swapped-result :
    result (edit_all swapped (empty_file, new_stream_hasher)).1 3 ≡ some (b'a' ∷ b'b' ∷ b'c' ∷ [])
unfolding edit_all result chunk_at drop_chunk
swapped-result = refl

edit_all-result_example :
    (b'a' ∷ b'b' ∷ b'c' ∷ []) ≡ read (edit_all swapped (empty_file, new_stream_hasher)).0 3
edit_all-result_example =
    edit_all-result swapped empty_file 3 (b'a' ∷ b'b' ∷ b'c' ∷ []) swapped-result

-- A rewrite of bytes that are hashed already leaves no result.
rewritten :
    result
      (edit_all
        (written (b'a' ∷ []) 0 ∷ written (b'b' ∷ []) 0 ∷ [])
        (empty_file, new_stream_hasher)).1
      1
    ≡ none
unfolding edit_all result chunk_at drop_chunk
rewritten = refl

consecutive-result_example :
    result
      (edit_all (consecutive 0 ((b'a' ∷ []) ∷ (b'b' ∷ []) ∷ [])) (empty_file, new_stream_hasher)).1
      2
    ≡ some (b'a' ∷ b'b' ∷ [])
consecutive-result_example = consecutive-result empty_file ((b'a' ∷ []) ∷ (b'b' ∷ []) ∷ [])

abbrev waiting : StreamHasher
waiting = record {
  h = b'a' ∷ [];
  next = 1;
  pending = (1, b'b' ∷ []) ∷ (2, b'c' ∷ []) ∷ [];
  held = 2;
  valid = true;
}

drain-done_example : chunk_at (drain 2 waiting).next (drain 2 waiting).pending ≡ none
drain-done_example = drain-done 2 waiting (omega arith)

fresh-IsWhole : IsWhole fresh_stage
unfolding end
fresh-IsWhole = refl

-- An upload that is extended, and cut again inside of what was written.
abbrev resized : List Edit
resized = written (b'c' ∷ []) 2 ∷ truncated 5 ∷ truncated 3 ∷ []

resized-EndsWritten : EndsWritten (intended fresh_stage) 0 resized
unfolding EndsWritten byte_at
resized-EndsWritten = (inr (inl (omega arith)), (inr (inr (b'c', refl)), tt))

stage_all-refines_example :
    SparseRun (intended fresh_stage) 0 resized (intended (stage_all fresh_stage resized))
stage_all-refines_example =
    stage_all-refines resized fresh_stage fresh-Tracks fresh-IsWhole resized-EndsWritten
