-- ===== src/Store/Handle/Settled.antt =====
-- `settle` of internal/store/upload.go: the prefix that a candidate lends, and the look for gaps.
use xsync.Prelude.{
  ℕ, zero, suc, ◌≤◌, ◌<◌, ◌≡◌, inl, inr, refl, sym, subst, true, not, ◌&&◌, if◌then◌else◌, some, [],
  ◌∷◌, ltb, if_intro, length, arith, Bool-cases, Option-cases,
}
use native.Mathlib.Nat.{le_trans}
use xsync.Prelude.Bytes.{Bytes, take}
use xsync.Bolt.{Bolt}
use xsync.Upload.Coverage.{Coverage, start, covers}
use xsync.Upload.Coverage.Normal.{IsNormal, add-IsNormal}
use xsync.Upload.Coverage.Contents.{covered, covered_below, covers_iff}
use xsync.Upload.Hasher.{StreamHasher, byte_at, file_write}
use xsync.Upload.Hasher.Chunks.{IsFaithful}
use xsync.Upload.File.{byte_at-write_at, length-write_at}
use xsync.Store.Error.{Error, Result, ok, err}
use xsync.Store.Delete.{is_some}
use xsync.Store.Handle.{Base, source, Os, Session, sent, find_exact, find_larger, first_some}
use xsync.Store.Handle.Closing.{write_prefix, copy_prefix, fill, check_gaps, settle}
use xsync.Store.Handle.Invariant.{put_file_self, HoldsIn, sent_all}
use xsync.Store.Handle.Published.{OnSuccess}

-- No byte before the first span is data.
start-le-covered : (c : Coverage) (x : ℕ) → IsNormal c → covered c x ≡ true → start c ≤ x
unfolding start
start-le-covered [] x h e = cc (e)
start-le-covered (s ∷ ss) x h e = elim (Bool-cases (ltb x s.from)) [
  | inl l ↦ cc (e, covered_below s.from (s ∷ ss) x (omega arith, h.1, h.2) (ground arith))
  | inr l ↦ ground arith
]

length-take-le : (n : ℕ) (p : Bytes) → length (take n p) ≤ n
unfolding take
length-take-le zero p = omega arith
length-take-le (suc n) [] = omega arith
length-take-le (suc n) (c ∷ p) = omega (arith, length-take-le n p)

-- A prefix that is written leaves the bytes behind it.
byte_at-write_prefix :
    (content p : Bytes) (x : ℕ)
    → length p ≤ x
    → byte_at (write_prefix content p) x ≡ byte_at content x
unfolding write_prefix file_write
byte_at-write_prefix content [] x l = refl
byte_at-write_prefix content (c ∷ p) x l = ground (arith, byte_at-write_at content (c ∷ p) 0 x)

length-write_prefix : (content p : Bytes) → length content ≤ length (write_prefix content p)
unfolding write_prefix
length-write_prefix content [] = omega arith
length-write_prefix content (c ∷ p) = omega (arith, length-write_at content (c ∷ p) 0)

module _ ⦃bolt : Bolt⦄ where
  -- What is settled of a session `s` whose file has the bytes `old`: a file without gaps, which has
  -- what was written.
  pub record IsSettled (s : Session) (old : Bytes) (t : Session) : Type 0 where
    pub content : Bytes
    pub there : t.disk s.h.upload.staging_path ≡ some content
    pub upload : t.h.upload ≡ s.h.upload
    pub store : t.store ≡ s.store
    pub hashed : (u : StreamHasher) → t.h.hasher ≡ some u → IsFaithful (byte_at content, u)
    pub gapless : (x : ℕ) → x < length content → covered t.h.cov x ≡ true
    pub within : (x : ℕ) → covered s.h.cov x ≡ true → x < length content
    pub kept : (x : ℕ) → covered s.h.cov x ≡ true → byte_at content x ≡ byte_at old x

  -- Before the gaps are looked for.
  record IsFilled (s : Session) (old : Bytes) (t : Session) : Type 0 where
    pub content : Bytes
    pub there : t.disk s.h.upload.staging_path ≡ some content
    pub upload : t.h.upload ≡ s.h.upload
    pub store : t.store ≡ s.store
    pub hashed : (u : StreamHasher) → t.h.hasher ≡ some u → IsFaithful (byte_at content, u)
    pub normal : IsNormal t.h.cov
    pub within : (x : ℕ) → covered s.h.cov x ≡ true → x < length content
    pub kept : (x : ℕ) → covered s.h.cov x ≡ true → byte_at content x ≡ byte_at old x

  copy_prefix-Shows :
      (os : Os) (b : Base) (old : Bytes) (s : Session)
      → HoldsIn s old
      → OnSuccess (IsFilled s old) (copy_prefix os b (start s.h.cov) s.h.upload.staging_path old s)
  unfolding copy_prefix
  copy_prefix-Shows os b old s h = elim (Option-cases (s.disk (source b))) [
    | inl e ↦ rw (e, copy_prefix) tt
    | inr (inherited, e) ↦
        let n = start s.h.cov in
        let p = sent os.copied (take n inherited) in
        rw (e, copy_prefix)
          (if_intro (OnSuccess (IsFilled s old)) (not os.open_ok) (λ _. tt)
            (λ _.
              if_intro (OnSuccess (IsFilled s old)) (is_some os.copied) (λ _. tt)
                (λ whole. record {
                  content = write_prefix old p;
                  there = put_file_self s.disk s.h.upload.staging_path (write_prefix old p);
                  upload = refl;
                  store = refl;
                  hashed = λ u q. cc (q);
                  normal = add-IsNormal s.h.cov 0 n h.tracks.normal;
                  within = λ x q. le_trans (h.tracks.within x q) (length-write_prefix old p);
                  kept = λ x q. byte_at-write_prefix old p x (
                      le_trans
                        (subst (λ r. length r ≤ n)
                          (sym (sent_all os.copied (take n inherited) whole))
                          (length-take-le n inherited))
                        (start-le-covered s.h.cov x h.tracks.normal q));
                })))
  ]

  fill-Shows :
      (os : Os) (old : Bytes) (s : Session)
      → HoldsIn s old
      → OnSuccess (IsFilled s old) (fill os s.h.upload.staging_path old s)
  unfolding fill
  fill-Shows os old s h =
      if_intro (OnSuccess (IsFilled s old)) (s.h.fill_prefix && ltb 0 (start s.h.cov))
        (λ _.
          elim (Option-cases (
            first_some (find_exact s.h.candidates (start s.h.cov))
              (find_larger s.h.candidates (start s.h.cov)))) [
                | inl e ↦ rw e tt
                | inr (b, e) ↦ rw e (copy_prefix-Shows os b old s h)
              ])
        (λ _. record {
          content = old;
          there = h.there;
          upload = refl;
          store = refl;
          hashed = h.tracks.hashed;
          normal = h.tracks.normal;
          within = h.tracks.within;
          kept = λ x q. refl;
        })

  check_gaps-Shows :
      (os : Os) (name content : Bytes) (t : Session)
      → IsNormal t.h.cov
      → t.disk name ≡ some content
      → check_gaps os name t ≡ ok tt
      → (x : ℕ) → x < length content
      → covered t.h.cov x ≡ true
  unfolding check_gaps
  check_gaps-Shows os name content t n d e =
      (covers_iff t.h.cov (length content) n).0 (found (rw (d, check_gaps) at e))
    where
      found :
          ◌≡◌ {A = Result (Unit {0})}
            (if not os.stat_ok
              then err Error.other
              else if covers t.h.cov (length content)
              then ok tt
              else err Error.incomplete)
            (ok tt)
          → covers t.h.cov (length content) ≡ true
      found q = ground arith

  -- A settled file has no gap, and what was written to it.
  pub settle-Shows :
      (os : Os) (old : Bytes) (s : Session)
      → HoldsIn s old
      → OnSuccess (IsSettled s old) (settle os s)
  unfolding settle
  settle-Shows os old s h =
      simp (h.opened, h.there, settle)
        (go (fill os s.h.upload.staging_path old s) (fill-Shows os old s h))
    where
      checked :
          (t : Session)
          → IsFilled s old t
          → (r : Result (Unit {0})) → check_gaps os s.h.upload.staging_path t ≡ r
          → OnSuccess (IsSettled s old) (t, r)
      checked t f (err e) q = tt
      checked t f (ok _) q = record {
        content = f.content;
        there = f.there;
        upload = f.upload;
        store = f.store;
        hashed = f.hashed;
        gapless = check_gaps-Shows os s.h.upload.staging_path f.content t f.normal f.there q;
        within = f.within;
        kept = f.kept;
      }

      go :
          (x : Session × Result (Unit {0}))
          → OnSuccess (IsFilled s old) x
          → OnSuccess (IsSettled s old) (elim x.1 as (λ r. Session × Result (Unit {0})) [
            | err e ↦ (x.0, err e)
            | ok _ ↦ (x.0, check_gaps os s.h.upload.staging_path x.0)
          ])
      go (t, err e) p = tt
      go (t, ok _) p = checked t p (check_gaps os s.h.upload.staging_path t) refl
