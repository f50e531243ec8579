-- ===== src/Upload/Hasher/Chunks.antt =====
-- The pending chunks of `streamHasher` (internal/store/upload.go), and the loop that takes those
-- that have become due.
use xsync.Prelude.{
  ℕ, zero, suc, ◌+◌, ◌-◌, ◌≤◌, ◌<◌, ◌≡◌, ◌≢◌, ◌⊎◌, refl, ◌∙◌, ap, true, none, some, List, [], ◌∷◌,
  ◌++◌, ◌==◌, ltb, if◌then◌else◌, if_intro, length, length-append, arith, inl, inr, Option-cases,
}
use xsync.Prelude.Bytes.{Bytes}
use xsync.Upload.Hasher.{StreamHasher, chunk_at, drop_chunk, feed, drain, byte_at, File}

Nat-cases : (a b : ℕ) → (a ≡ b) ⊎ (a ≢ b)
Nat-cases a b = ground arith

chunk_at-drop_chunk :
    (k j : ℕ) (m : List (ℕ × Bytes))
    → chunk_at j (drop_chunk k m) ≡ (if k == j then none else chunk_at j m)
unfolding chunk_at drop_chunk
chunk_at-drop_chunk k j [] = ground arith
chunk_at-drop_chunk k j ((i, q) ∷ m) = ground (arith, chunk_at-drop_chunk k j m)

length-drop_chunk : (k : ℕ) (m : List (ℕ × Bytes)) → length (drop_chunk k m) ≤ length m
unfolding drop_chunk
length-drop_chunk k [] = omega arith
length-drop_chunk k ((i, q) ∷ m) = ground (arith, length-drop_chunk k m)

-- A chunk that is there makes the list shorter when it goes.
length-drop_found :
    (k : ℕ) (m : List (ℕ × Bytes)) (q : Bytes)
    → chunk_at k m ≡ some q
    → length (drop_chunk k m) < length m
unfolding chunk_at drop_chunk
length-drop_found k [] q h = cc
length-drop_found k ((i, p) ∷ m) q h =
    ground (arith, length-drop_found k m q, length-drop_chunk k m)

pub byte_at-append :
    (p q : Bytes) (i : ℕ)
    → byte_at (p ++ q) i ≡ (if ltb i (length p) then byte_at p i else byte_at q (i - length p))
unfolding byte_at
byte_at-append [] q i = ground arith
byte_at-append (c ∷ p) q zero = ground arith
byte_at-append (c ∷ p) q (suc i) = ground (arith, byte_at-append p q i)

abbrev pub Pending : StreamHasher → ℕ → Bytes → Type 0
Pending s o q = chunk_at o s.pending ≡ some q

-- A chunk that can never become due: it starts before the next byte, or inside another one.
pub record Stuck (s : StreamHasher) : Type 0 where
  pub offset : ℕ
  pub chunk : Bytes
  pub there : Pending s offset chunk
  pub why :
      (offset < s.next)
      ⊎ ((o : ℕ) × (q : Bytes) × Pending s o q × (o < offset) × (offset < o + length q))

-- What was hashed, and what waits, is what the file holds, and the chunks do not overlap.
pub record Agrees (f : File) (s : StreamHasher) : Type 0 where
  pub length_h : length s.h ≡ s.next
  pub hashed : (i : ℕ) → i < s.next → byte_at s.h i ≡ f i
  pub after : (o : ℕ) (q : Bytes) → Pending s o q → s.next ≤ o
  pub waiting :
      (o : ℕ) (q : Bytes) → Pending s o q → (i : ℕ) → i < length q → byte_at q i ≡ f (o + i)
  pub apart :
      (o : ℕ) (q : Bytes) (o' : ℕ) (q' : Bytes)
      → Pending s o q
      → Pending s o' q'
      → o' < o
      → o' + length q' ≤ o

abbrev pub IsSound : File → StreamHasher → Type 0
IsSound f s = ¬ Stuck s → Agrees f s

abbrev pub IsFaithful : File × StreamHasher → Type 0
IsFaithful fs = fs.1.valid ≡ true → IsSound fs.0 fs.1

-- One round of the loop.
abbrev due : StreamHasher → Bytes → StreamHasher
due s q = feed (record s { pending = drop_chunk s.next s.pending; held = s.held - length q }) q

-- Another chunk than the due one stays.
kept :
    (s : StreamHasher) (q : Bytes) (o : ℕ) (p : Bytes)
    → Pending s o p
    → o ≢ s.next
    → Pending (due s q) o p
kept s q o p h n = ground (arith, chunk_at-drop_chunk s.next o s.pending)

was_there :
    (s : StreamHasher) (q : Bytes) (o : ℕ) (p : Bytes)
    → Pending (due s q) o p
    → Pending s o p × (o ≢ s.next)
was_there s q o p h = ground (arith, chunk_at-drop_chunk s.next o s.pending)

due-Stuck : (s : StreamHasher) (q : Bytes) → Pending s s.next q → Stuck s → Stuck (due s q)
due-Stuck s q d k = elim k.why [
  | inl l ↦ record {
    offset = k.offset;
    chunk = k.chunk;
    there = kept s q k.offset k.chunk k.there (λ e. omega arith);
    why = inl (omega arith);
  }
  | inr (o, p, t, l, r) ↦ elim (Nat-cases k.offset s.next) [
    | inl e ↦ record {
      offset = o;
      chunk = p;
      there = kept s q o p t (λ z. omega arith);
      why = inl (omega arith);
    }
    | inr n ↦ elim (Nat-cases o s.next) [
      | inl e ↦
          let same : length p ≡ length q = ground arith in
          record {
            offset = k.offset;
            chunk = k.chunk;
            there = kept s q k.offset k.chunk k.there n;
            why = inl (omega arith);
          }
      | inr m ↦ record {
        offset = k.offset;
        chunk = k.chunk;
        there = kept s q k.offset k.chunk k.there n;
        why = inr (o, p, kept s q o p t m, l, r);
      }
    ]
  ]
]

due-Agrees :
    (f : File) (s : StreamHasher) (q : Bytes) → Pending s s.next q → Agrees f s → Agrees f (due s q)
due-Agrees f s q d a = record {
  length_h = length-append s.h q ∙ ap (λ n. n + length q) a.length_h;
  hashed = λ i l.
      byte_at-append s.h q i
      ∙ if_intro (λ b. b ≡ f i) (ltb i (length s.h))
          (λ t. let n = a.length_h in a.hashed i (ground arith))
          (λ t.
            let n = a.length_h in
            let i' : s.next + (i - length s.h) ≡ i = ground arith in
            a.waiting s.next q d (i - length s.h) (ground arith) ∙ ap f i');
  after = λ o p h.
      let w = was_there s q o p h in
      let le = a.after o p w.0 in a.apart o p s.next q w.0 d (omega arith);
  waiting = λ o p h. a.waiting o p (was_there s q o p h).0;
  apart = λ o p o' p' h h'. a.apart o p o' p' (was_there s q o p h).0 (was_there s q o' p' h').0;
}

-- A chunk that has to wait never becomes one that does not, as the loop goes on.
pub drain-IsSound :
    (fuel : ℕ) (f : File) (s : StreamHasher) → IsSound f s → IsSound f (drain fuel s)
unfolding drain
drain-IsSound zero f s h = h
drain-IsSound (suc fuel) f s h = elim (Option-cases (chunk_at s.next s.pending)) [
  | inl e ↦ rw (e, drain) h
  | inr (q, e) ↦
      rw (e, drain)
        (drain-IsSound fuel f (due s q) (λ n. due-Agrees f s q e (h (λ k. n (due-Stuck s q e k)))))
]

pub chunk_at-none : (k : ℕ) (m : List (ℕ × Bytes)) → length m ≡ 0 → chunk_at k m ≡ none
unfolding chunk_at
chunk_at-none k [] e = refl
chunk_at-none k (x ∷ m) e = absurd (omega arith)

pub le_or_lt : (a b : ℕ) → (a ≤ b) ⊎ (b < a)
le_or_lt a b = ground arith

-- The number of the chunks is enough fuel: after the loop no chunk is due.
pub drain-done :
    (fuel : ℕ) (s : StreamHasher)
    → length s.pending ≤ fuel
    → chunk_at (drain fuel s).next (drain fuel s).pending ≡ none
unfolding drain
drain-done zero s h = chunk_at-none s.next s.pending (omega arith)
drain-done (suc fuel) s h = elim (Option-cases (chunk_at s.next s.pending)) [
  | inl e ↦ rw (e, drain, e) refl
  | inr (q, e) ↦
      let shorter = length-drop_found s.next s.pending q e in
      rw (e, drain) (drain-done fuel (due s q) (omega arith))
]
