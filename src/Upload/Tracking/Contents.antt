-- ===== src/Upload/Tracking/Contents.antt =====
-- The edits of a staging file (internal/store/upload.go) beside those of a sparse file.
use xsync.Prelude.{
  ℕ, suc, ◌+◌, ◌-◌, ◌≤◌, ◌<◌, ◌≡◌, ◌⊎◌, ◌∙◌, ap, ◌==◌, inl, inr, refl, sym, subst, true, false,
  Option, none, some, List, [], ◌∷◌, ltb, leb, if_intro, if◌then◌else◌, length, max, arith,
  Bool-cases,
}
use mathlib.Core.Path.{fun_ext}
use xsync.Prelude.Bytes.{Bytes}
use xsync.Upload.Coverage.{Coverage, add, clip, end}
use xsync.Upload.Coverage.Normal.{IsNormal, Apart, add-IsNormal, clip-IsNormal}
use xsync.Upload.Coverage.Contents.{covered, covered-add, covered-clip, covered-lt-end}
use xsync.Upload.Hasher.{
  StreamHasher, new_stream_hasher, byte_at, File, file_write, file_truncate, Edit, written,
  truncated,
}
use xsync.Upload.Hasher.Chunks.{IsFaithful}
use xsync.Upload.Hasher.Digest.{write-IsFaithful, truncate-IsFaithful, new-IsFaithful}
use xsync.Upload.File.{
  write_at, cut_to, byte_at-write_at, byte_at-cut_to, length-write_at, length-cut_to,
  file_of-write_at, file_of-cut_to,
}
use xsync.Upload.Tracking.{
  hash_write, hash_truncate, cover_truncated, Stage, stage_write, stage_truncate, stage_edit,
  stage_all, Tracks, sparse_write, sparse_truncate, length_after, SparseRun, done, wrote, cut,
  EndsWritten, intended,
}

-- The file of a fresh upload.
abbrev pub fresh_stage : Stage
fresh_stage = record { content = []; cov = []; hasher = some new_stream_hasher }

pub fresh-Tracks : Tracks fresh_stage
unfolding byte_at
fresh-Tracks = record {
  normal = tt;
  within = λ x e. cc (e);
  gaps = λ x e. refl;
  hashed = λ t e. subst (λ u. IsFaithful (byte_at [], u)) (cc) (new-IsFaithful (byte_at []));
}

-- A coverage ends at its last covered byte.
end-covered : (lo : ℕ) (c : Coverage) → Apart lo c → (end c ≡ 0) ⊎ (covered c (end c - 1) ≡ true)
unfolding end
end-covered lo [] h = inl refl
end-covered lo (s ∷ []) h = inr (ground arith)
end-covered lo (s ∷ t ∷ ts) h = elim (end-covered (suc s.upto) (t ∷ ts) h.2) [
  | inl e ↦ inl e
  | inr e ↦ inr (ground arith)
]

-- The end of a coverage is known from what it covers.
end_unique :
    (c : Coverage) (n : ℕ)
    → IsNormal c
    → ((x : ℕ) → covered c x ≡ true → x < n)
    → (n ≡ 0) ⊎ (covered c (n - 1) ≡ true)
    → end c ≡ n
end_unique c n h below last = elim (end-covered 0 c h) [
  | inl e ↦ elim last [
    | inl z ↦ omega arith
    | inr q ↦ (let k = covered-lt-end 0 c (n - 1) h q in absurd (omega arith))
  ]
  | inr e ↦
      (let k = below (end c - 1) e in
        elim last [
          | inl z ↦ absurd (omega arith)
          | inr q ↦ (let j = covered-lt-end 0 c (n - 1) h q in omega arith)
        ])
]

covered-truncated :
    (c : Coverage) (size x : ℕ)
    → IsNormal c
    → covered (cover_truncated c size) x
      ≡ (if ltb x size then (if leb (end c) x then true else covered c x) else false)
unfolding cover_truncated
covered-truncated c size x h =
    if_intro
      (λ l.
        covered l x ≡ (if ltb x size then (if leb (end c) x then true else covered c x) else false))
      (ltb (end c) size)
      (λ e. ground (
        arith,
        covered-add (clip c size) (end c) size x (clip-IsNormal c size h),
        covered-clip c size x,
        covered-lt-end 0 c x h,
      ))
      (λ e. ground (arith, covered-clip c size x, covered-lt-end 0 c x h))

hash_write-IsFaithful :
    (f : File) (s : Option StreamHasher) (p : Bytes) (off : ℕ)
    → ((t : StreamHasher) → s ≡ some t → IsFaithful (f, t))
    → (t : StreamHasher) → hash_write s p off ≡ some t
    → IsFaithful (file_write f p off, t)
unfolding hash_write
hash_write-IsFaithful f none p off h t e = cc (e)
hash_write-IsFaithful f (some s) p off h t e =
    subst (λ u. IsFaithful (file_write f p off, u)) (cc (e)) (write-IsFaithful f s p off (h s refl))

hash_truncate-IsFaithful :
    (f : File) (s : Option StreamHasher) (size : ℕ)
    → ((t : StreamHasher) → s ≡ some t → IsFaithful (f, t))
    → (t : StreamHasher) → hash_truncate s size ≡ some t
    → IsFaithful (file_truncate f size, t)
unfolding hash_truncate
hash_truncate-IsFaithful f none size h t e = cc (e)
hash_truncate-IsFaithful f (some s) size h t e =
    subst (λ u. IsFaithful (file_truncate f size, u)) (cc (e))
      (truncate-IsFaithful f s size (h s refl))

-- A write of at least one byte.
write-Tracks :
    (s : Stage) (c : ℕ) (p : Bytes) (off : ℕ) → Tracks s → Tracks (stage_write s (c ∷ p) off)
unfolding stage_write
write-Tracks s c p off t = record {
  normal = add-IsNormal s.cov off (off + length (c ∷ p)) t.normal;
  within = λ x e. ground (
    arith,
    covered-add s.cov off (off + length (c ∷ p)) x t.normal,
    t.within x,
    length-write_at s.content (c ∷ p) off,
  );
  gaps = λ x e.
      unfold file_write in
      ground (
        arith,
        covered-add s.cov off (off + length (c ∷ p)) x t.normal,
        t.gaps x,
        byte_at-write_at s.content (c ∷ p) off x,
      );
  hashed = λ u e.
      subst (λ g. IsFaithful (g, u)) (sym (file_of-write_at s.content (c ∷ p) off))
        (hash_write-IsFaithful (byte_at s.content) s.hasher (c ∷ p) off t.hashed u e);
}

pub stage_write-Tracks : (s : Stage) (p : Bytes) (off : ℕ) → Tracks s → Tracks (stage_write s p off)
unfolding stage_write
stage_write-Tracks s [] off t = t
stage_write-Tracks s (c ∷ p) off t = write-Tracks s c p off t

pub stage_truncate-Tracks : (s : Stage) (size : ℕ) → Tracks s → Tracks (stage_truncate s size)
unfolding stage_truncate file_truncate cover_truncated
stage_truncate-Tracks s size t = record {
  normal =
      if_intro IsNormal (ltb (end s.cov) size)
        (λ _. add-IsNormal (clip s.cov size) (end s.cov) size (clip-IsNormal s.cov size t.normal))
        (λ _. clip-IsNormal s.cov size t.normal);
  within =
      λ x e. ground (arith, covered-truncated s.cov size x t.normal, length-cut_to s.content size);
  gaps = λ x e.
      ground
        (arith, covered-truncated s.cov size x t.normal, t.gaps x, byte_at-cut_to s.content size x);
  hashed = λ u e.
      subst (λ g. IsFaithful (g, u)) (sym (file_of-cut_to s.content size))
        (hash_truncate-IsFaithful (byte_at s.content) s.hasher size t.hashed u e);
}

pub stage_all-Tracks : (es : List Edit) (s : Stage) → Tracks s → Tracks (stage_all s es)
unfolding stage_all stage_edit
stage_all-Tracks [] s t = t
stage_all-Tracks (written p off ∷ es) s t =
    stage_all-Tracks es (stage_write s p off) (stage_write-Tracks s p off t)
stage_all-Tracks (truncated size ∷ es) s t =
    stage_all-Tracks es (stage_truncate s size) (stage_truncate-Tracks s size t)

pub write-intended :
    (s : Stage) (p : Bytes) (off x : ℕ)
    → Tracks s
    → intended (stage_write s p off) x ≡ sparse_write (intended s) p off x
unfolding stage_write file_write
write-intended s [] off x t = ground arith
write-intended s (c ∷ p) off x t = ground (
  arith,
  covered-add s.cov off (off + length (c ∷ p)) x t.normal,
  byte_at-write_at s.content (c ∷ p) off x,
)

pub truncate-intended :
    (s : Stage) (size x : ℕ)
    → Tracks s
    → intended (stage_truncate s size) x ≡ sparse_truncate (intended s) (end s.cov) size x
unfolding stage_truncate file_truncate
truncate-intended s size x t = ground (
  arith,
  covered-truncated s.cov size x t.normal,
  byte_at-cut_to s.content size x,
  t.gaps x,
  covered-lt-end 0 s.cov x t.normal,
)

-- The coverage ends where the file ends.
abbrev pub IsWhole : Stage → Type 0
IsWhole s = end s.cov ≡ length s.content

write-IsWhole :
    (s : Stage) (p : Bytes) (off : ℕ) → Tracks s → IsWhole s → IsWhole (stage_write s p off)
unfolding stage_write
write-IsWhole s [] off t w = w
write-IsWhole s (c ∷ p) off t w =
    let t' = stage_write-Tracks s (c ∷ p) off t in
    let n : ℕ = length (write_at s.content (c ∷ p) off) in
    end_unique (add s.cov off (off + length (c ∷ p))) n t'.normal t'.within (
      let at : n ≡ max (length s.content) (off + length (c ∷ p)) =
        length-write_at s.content (c ∷ p) off in
      let k = covered-add s.cov off (off + length (c ∷ p)) (n - 1) t.normal in
      inr (elim (Bool-cases (leb (length s.content) (off + length (c ∷ p)))) [
        | inl e ↦ ground (arith, k, at)
        | inr e ↦
            (let over : off + length (c ∷ p) < length s.content = ground arith in
              let same : n ≡ end s.cov = omega (arith, w, at) in
              elim (end-covered 0 s.cov t.normal) [
                | inl z ↦ absurd (omega (arith, w))
                | inr q ↦
                    (let q' : covered s.cov (n - 1) ≡ true =
                        subst (λ m. covered s.cov (m - 1) ≡ true) (sym same) q in
                      ground (arith, k))
              ])
      ]))

truncate-IsWhole :
    (s : Stage) (size : ℕ)
    → Tracks s
    → IsWhole s
    → (size ≡ 0) ⊎ (length s.content ≤ size) ⊎ ((b : ℕ) × (intended s (size - 1) ≡ some b))
    → IsWhole (stage_truncate s size)
unfolding stage_truncate
truncate-IsWhole s size t w last =
    let t' = stage_truncate-Tracks s size t in
    let k = covered-truncated s.cov size (size - 1) t.normal in
    let at : length (cut_to s.content size) ≡ size = length-cut_to s.content size in
    end_unique (cover_truncated s.cov size) size t'.normal
      (λ x e. subst (λ n. x < n) at (t'.within x e))
      (elim (Bool-cases (size == 0)) [
        | inl z ↦ inl (ground arith)
        | inr z ↦ inr (elim last [
          | inl e ↦ absurd (ground arith)
          | inr (inl e) ↦ elim (Bool-cases (leb (end s.cov) (size - 1))) [
            | inl q ↦ ground (arith, k)
            | inr q ↦ elim (end-covered 0 s.cov t.normal) [
              | inl y ↦ absurd (ground arith)
              | inr y ↦
                  (let same : end s.cov ≡ size = ground arith in
                    let y' : covered s.cov (size - 1) ≡ true =
                      subst (λ m. covered s.cov (m - 1) ≡ true) same y in
                    ground (arith, k))
            ]
          ]
          | inr (inr (b, e)) ↦ ground (arith, k)
        ])
      ])
    ∙ sym at

length-stage_write :
    (s : Stage) (p : Bytes) (off : ℕ)
    → length (stage_write s p off).content ≡ length_after (length s.content) p off
unfolding stage_write
length-stage_write s [] off = refl
length-stage_write s (c ∷ p) off = length-write_at s.content (c ∷ p) off

-- Whatever writes and truncations come, in any order, from a staging file whose coverage ends where
-- the file ends, so long as no truncation leaves a file that ends with bytes that were never
-- written: the staging file with its coverage is the sparse file that the same edits make. A
-- written range holds what was written, a file is cut or extended by zeros from its length, and
-- everything else is as it was.
pub stage_all-refines :
    (es : List Edit) (s : Stage)
    → Tracks s
    → IsWhole s
    → EndsWritten (intended s) (length s.content) es
    → SparseRun (intended s) (length s.content) es (intended (stage_all s es))
unfolding stage_all stage_edit EndsWritten
stage_all-refines [] s t w k = done
stage_all-refines (written p off ∷ es) s t w k =
    let s' : Stage = stage_write s p off in
    let at : length s'.content ≡ length_after (length s.content) p off =
      length-stage_write s p off in
    let bytes : intended s' ≡ sparse_write (intended s) p off =
      fun_ext (λ x. write-intended s p off x t) in
    wrote p off (
      subst
        (λ f. SparseRun f (length_after (length s.content) p off) es (intended (stage_all s' es)))
        bytes
        (subst (λ n. SparseRun (intended s') n es (intended (stage_all s' es))) at
          (stage_all-refines es s' (stage_write-Tracks s p off t) (write-IsWhole s p off t w) (
            subst (λ n. EndsWritten (intended s') n es) (sym at)
              (subst (λ f. EndsWritten f (length_after (length s.content) p off) es) (sym bytes)
                k)))))
stage_all-refines (truncated size ∷ es) s t w k =
    let s' : Stage = stage_truncate s size in
    let at : length s'.content ≡ size = unfold stage_truncate in length-cut_to s.content size in
    let bytes : intended s' ≡ sparse_truncate (intended s) (length s.content) size =
      fun_ext
        (λ x. truncate-intended s size x t ∙ ap (λ n. sparse_truncate (intended s) n size x) w) in
    cut size (
      subst (λ f. SparseRun f size es (intended (stage_all s' es))) bytes
        (subst (λ n. SparseRun (intended s') n es (intended (stage_all s' es))) at
          (stage_all-refines es s' (stage_truncate-Tracks s size t)
            (truncate-IsWhole s size t w k.0)
            (subst (λ n. EndsWritten (intended s') n es) (sym at)
              (subst (λ f. EndsWritten f size es) (sym bytes) k.1)))))
