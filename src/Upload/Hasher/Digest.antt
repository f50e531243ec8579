-- ===== src/Upload/Hasher/Digest.antt =====
-- The digest of `streamHasher` (internal/store/upload.go) and the contents of the file.
use xsync.Prelude.{
  ℕ, zero, suc, ◌+◌, ◌≤◌, ◌<◌, ◌≡◌, ◌≢◌, ◌⊎◌, refl, sym, subst, ◌∙◌, ap, true, not, ◌&&◌, ◌||◌,
  none, some, List, [], ◌∷◌, ◌==◌, ltb, leb, if_intro, length, length-append, arith, inl, inr,
  Option-cases,
}
use xsync.Prelude.Bytes.{Bytes}
use xsync.Upload.Hasher.{
  StreamHasher, chunk_at, max_reorder_bytes, new_stream_hasher, feed, put_aside, write, truncate,
  result, byte_at, File, file_write, file_truncate, read, Edit, written, truncated, edit, edit_all,
}
use xsync.Upload.Hasher.Chunks.{
  Pending, Stuck, IsSound, IsFaithful, byte_at-append, chunk_at-none, le_or_lt, drain-IsSound,
}

-- Bytes that go on where the hashed ones end.
feed-IsSound :
    (f : File) (s : StreamHasher) (p : Bytes)
    → IsSound f s
    → IsSound (file_write f p s.next) (feed s p)
unfolding file_write
feed-IsSound f s p h n =
    let a = h (λ k. n (feed-Stuck k)) in
    let m = a.length_h in
    record {
      length_h = length-append s.h p ∙ ap (λ m. m + length p) a.length_h;
      hashed = λ i l. ground (arith, byte_at-append s.h p i, a.hashed i);
      after = late;
      waiting = λ o q t i l. let w = a.waiting o q t i l in let e = late o q t in ground arith;
      apart = a.apart;
    }
  where
    feed-Stuck : Stuck s → Stuck (feed s p)
    feed-Stuck k = record {
      offset = k.offset;
      chunk = k.chunk;
      there = k.there;
      why = elim k.why [ inl l ↦ inl (omega arith) | inr w ↦ inr w ];
    }

    late : (o : ℕ) (q : Bytes) → Pending s o q → s.next + length p ≤ o
    late o q t = elim (le_or_lt (s.next + length p) o) [
      | inl l ↦ l
      | inr l ↦ absurd (n (record { offset = o; chunk = q; there = t; why = inl l }))
    ]

-- A chunk that comes too early.
aside : StreamHasher → Bytes → ℕ → StreamHasher
aside s p off = record s { pending = (off, p) ∷ s.pending; held = s.held + length p }

aside-IsSound :
    (f : File) (s : StreamHasher) (p : Bytes) (off : ℕ)
    → s.next < off
    → chunk_at off s.pending ≡ none
    → IsSound f s
    → IsSound (file_write f p off) (aside s p off)
unfolding file_write chunk_at aside
aside-IsSound f s p off l free h n =
    let a = h (λ k. n (aside-Stuck k)) in
    record {
      length_h = a.length_h;
      hashed = λ i k. let e = a.hashed i k in ground arith;
      after = λ o q t. elim (split o q t) [
        | inl e ↦ (let e0 = e.0 in omega arith)
        | inr t' ↦ a.after o q t'
      ];
      waiting = λ o q t i k. elim (split o q t) [
        | inl e ↦ (let e0 = e.0 in let e1 = e.1 in ground arith)
        | inr t' ↦
            let w = a.waiting o q t' i k in
            let before = clear o q off p t new in
            let behind = clear off p o q new t in
            let other : o ≢ off = λ e. taken o q t' e in ground arith
      ];
      apart = λ o q o' q' t t' k. clear o' q' o q t' t k;
    }
  where
    split :
        (o : ℕ) (q : Bytes) → Pending (aside s p off) o q → ((o ≡ off) × (q ≡ p)) ⊎ Pending s o q
    split o q t = ground arith

    new : Pending (aside s p off) off p
    new = ground arith

    taken : (o : ℕ) (q : Bytes) → Pending s o q → o ≢ off
    taken o q t e = ground arith

    clear :
        (o : ℕ) (q : Bytes) (o' : ℕ) (q' : Bytes)
        → Pending (aside s p off) o q
        → Pending (aside s p off) o' q'
        → o < o'
        → o + length q ≤ o'
    clear o q o' q' t t' k = elim (le_or_lt (o + length q) o') [
      | inl i ↦ i
      | inr i ↦
          absurd (n (record { offset = o'; chunk = q'; there = t'; why = inr (o, q, t, k, i) }))
    ]

    old : (o : ℕ) (q : Bytes) → Pending s o q → Pending (aside s p off) o q
    old o q t = ground arith

    aside-Stuck : Stuck s → Stuck (aside s p off)
    aside-Stuck k = record {
      offset = k.offset;
      chunk = k.chunk;
      there = old k.offset k.chunk k.there;
      why = elim k.why [ inl i ↦ inl i | inr (o, q, t, i, j) ↦ inr (o, q, old o q t, i, j) ];
    }

put_aside-IsFaithful :
    (f : File) (s : StreamHasher) (p : Bytes) (off : ℕ)
    → s.next < off
    → IsSound f s
    → IsFaithful (file_write f p off, put_aside s p off)
unfolding put_aside aside
put_aside-IsFaithful f s p off l h = elim (Option-cases (chunk_at off s.pending)) [
  | inl e ↦ rw (e, put_aside) (λ v. aside-IsSound f s p off l e h)
  | inr (q, e) ↦ rw (e, put_aside) (λ v. cc (v))
]

pub write-IsFaithful :
    (f : File) (s : StreamHasher) (p : Bytes) (off : ℕ)
    → IsFaithful (f, s)
    → IsFaithful (file_write f p off, write s p off)
unfolding write
write-IsFaithful f s p off h =
    let g : File = file_write f p off in
    let P : StreamHasher → Type 0 = (λ t. IsFaithful (g, t)) in
    if_intro P (not s.valid) (λ e v. cc (e, v))
      (λ e.
        let sound : IsSound f s = h (ground arith) in
        if_intro P (off == s.next)
          (λ q v.
            let at : off ≡ s.next = ground arith in
            drain-IsSound (length s.pending) g (feed s p) (
              subst (λ o. IsSound (file_write f p o) (feed s p)) (sym at)
                (feed-IsSound f s p sound)))
          (λ _.
            if_intro P (ltb s.next off && leb (s.held + length p) max_reorder_bytes)
              (λ r. put_aside-IsFaithful f s p off (ground arith) sound) (λ _ v. cc (v))))

pub truncate-IsFaithful :
    (f : File) (s : StreamHasher) (size : ℕ)
    → IsFaithful (f, s)
    → IsFaithful (file_truncate f size, truncate s size)
unfolding truncate file_truncate
truncate-IsFaithful f s size h =
    let g : File = file_truncate f size in
    let P : StreamHasher → Type 0 = (λ t. IsFaithful (g, t)) in
    if_intro P (not s.valid || not (size == s.next) || ltb 0 (length s.pending)) (λ _ v. cc (v))
      (λ e v n.
        let a = h v n in
        let at : size ≡ s.next = ground arith in
        let none_left : length s.pending ≡ 0 = ground arith in
        record {
          length_h = a.length_h;
          hashed = λ i l. let w = a.hashed i l in ground arith;
          after = a.after;
          waiting = λ o q t. absurd (cc (t, chunk_at-none o s.pending none_left));
          apart = a.apart;
        })

edit_all-IsFaithful :
    (es : List Edit) (fs : File × StreamHasher) → IsFaithful fs → IsFaithful (edit_all es fs)
unfolding edit_all edit
edit_all-IsFaithful [] fs h = h
edit_all-IsFaithful (written p off ∷ es) (f, s) h =
    edit_all-IsFaithful es (edit (written p off) (f, s)) (write-IsFaithful f s p off h)
edit_all-IsFaithful (truncated size ∷ es) (f, s) h =
    edit_all-IsFaithful es (edit (truncated size) (f, s)) (truncate-IsFaithful f s size h)

pub new-IsFaithful : (f : File) → IsFaithful (f, new_stream_hasher)
unfolding chunk_at
new-IsFaithful f v n = record {
  length_h = refl;
  hashed = λ i l. absurd (omega arith);
  after = λ o q t. cc (t);
  waiting = λ o q t. cc (t);
  apart = λ o q o' q' t. cc (t);
}

-- Where nothing waits, no chunk is stuck.
nothing-Stuck : (s : StreamHasher) → length s.pending ≡ 0 → ¬ Stuck s
nothing-Stuck s e k = cc (k.there, chunk_at-none k.offset s.pending e)

result_lem :
    (s : StreamHasher) (size : ℕ) (d : Bytes)
    → result s size ≡ some d
    → (s.valid ≡ true) × (length s.pending ≡ 0) × (s.next ≡ size) × (s.h ≡ d)
unfolding result
result_lem s size d h = ground arith

read_ext :
    (d : Bytes) (n : ℕ) (f : File)
    → length d ≡ n
    → ((i : ℕ) → i < n → byte_at d i ≡ f i)
    → d ≡ read f n
unfolding read byte_at
read_ext [] zero f l h = refl
read_ext [] (suc n) f l h = absurd (omega arith)
read_ext (c ∷ d) zero f l h = absurd (omega arith)
read_ext (c ∷ d) (suc n) f l h =
    ap (λ x. x ∷ d) (h 0 (omega arith))
    ∙ ap (λ r. f 0 ∷ r)
        (read_ext d n (λ i. f (suc i)) (omega arith) (λ i b. h (suc i) (omega arith)))

-- What the hasher of a file gives is the start of the file.
pub IsFaithful-result :
    (f : File) (s : StreamHasher) (size : ℕ) (d : Bytes)
    → IsFaithful (f, s)
    → result s size ≡ some d
    → d ≡ read f size
IsFaithful-result f s size d h e =
    let at = result_lem s size d e in
    let a = h at.0 (nothing-Stuck s at.1) in
    read_ext d size f (ap length (sym at.3) ∙ a.length_h ∙ at.2)
      (λ i l. ap (λ b. byte_at b i) (sym at.3) ∙ a.hashed i (subst (λ n. i < n) (sym at.2) l))

-- Whatever writes and truncations have made of a file, in any order and with any overlaps: where the
-- hasher gives a result for a size, it has hashed exactly the file's first bytes of that number.
pub edit_all-result :
    (es : List Edit) (f : File) (size : ℕ) (d : Bytes)
    → result (edit_all es (f, new_stream_hasher)).1 size ≡ some d
    → d ≡ read (edit_all es (f, new_stream_hasher)).0 size
edit_all-result es f size d =
    let r = edit_all es (f, new_stream_hasher) in
    IsFaithful-result r.0 r.1 size d
      (edit_all-IsFaithful es (f, new_stream_hasher) (new-IsFaithful f))
