-- ===== src/Store/Index/Framing.antt =====
-- Frames: what a transaction of internal/store touches in the catalog, and what it leaves.
use mathlib.Core.List.{append_assoc}
use xsync.Prelude.{
  ℕ, ◌≡◌, refl, ◌∙◌, sym, ap, subst, ◌≢◌, inl, inr, false, none, some, ◌∷◌, ◌++◌, if◌then◌else◌,
  arith, Bool-cases,
}
use xsync.Prelude.Bytes.{
  Bytes, bytes_eq, bytes_eq_iff, Lacks, cut, cut_last, ne_of_bytes_eq, bytes_eq_of_ne, cut-append,
  cut_last-append,
}
use xsync.Bolt.{Bolt, get-put, get-delete, get-next}
use xsync.Model.{ObjectVersion}
use xsync.Store.Keys.{
  Instant, nul, u64key, tskey, first_segment, queue_key, queue_seg_key, time_id_key,
}
use xsync.Store.Keys.Parse.{Lacks-tskey}
use xsync.Store.Tx.{Db}
use xsync.Store.Index.{IsIndexed, IsConsistent, Frame}

-- The id is what follows the last NUL of a queue key, and the first NUL of a time key.
id_of_queue_key :
    (t : Bytes) (n : ℕ) (k : Bytes)
    → Lacks nul k
    → cut_last nul (queue_key t n k) ≡ some (t ++ (nul ∷ u64key n), k)
unfolding queue_key
id_of_queue_key t n k l =
    rw (← append_assoc t (nul ∷ u64key n) (nul ∷ k))
      (cut_last-append nul (t ++ (nul ∷ u64key n)) k l)

id_of_queue_seg_key :
    (t p : Bytes) (n : ℕ) (k : Bytes)
    → Lacks nul k
    → cut_last nul (queue_seg_key t p n k)
      ≡ some (t ++ (nul ∷ (first_segment p ++ (nul ∷ u64key n))), k)
unfolding queue_seg_key
id_of_queue_seg_key t p n k l =
    rw
      (
        ← append_assoc (first_segment p) (nul ∷ u64key n) (nul ∷ k),
        ← append_assoc t (nul ∷ (first_segment p ++ (nul ∷ u64key n))) (nul ∷ k),
      )
      (cut_last-append nul (t ++ (nul ∷ (first_segment p ++ (nul ∷ u64key n)))) k l)

split_ne :
    (x y a b id k : Bytes)
    → cut_last nul x ≡ some (a, id)
    → cut_last nul y ≡ some (b, k)
    → k ≢ id
    → bytes_eq x y ≡ false
split_ne x y a b id k h g ne = bytes_eq_of_ne x y (λ e. ne (ground (arith, ap (cut_last nul) e)))

queue_key_ne :
    (t t' : Bytes) (n n' : ℕ) (id k : Bytes)
    → Lacks nul id
    → Lacks nul k
    → k ≢ id
    → bytes_eq (queue_key t n id) (queue_key t' n' k) ≡ false
queue_key_ne t t' n n' id k c l ne =
    split_ne _ _ _ _ id k (id_of_queue_key t n id c) (id_of_queue_key t' n' k l) ne

queue_seg_key_ne :
    (t t' p p' : Bytes) (n n' : ℕ) (id k : Bytes)
    → Lacks nul id
    → Lacks nul k
    → k ≢ id
    → bytes_eq (queue_seg_key t p n id) (queue_seg_key t' p' n' k) ≡ false
queue_seg_key_ne t t' p p' n n' id k c l ne =
    split_ne _ _ _ _ id k (id_of_queue_seg_key t p n id c) (id_of_queue_seg_key t' p' n' k l) ne

time_id_key_ne :
    (u w : Instant) (id k : Bytes) → k ≢ id → bytes_eq (time_id_key u id) (time_id_key w k) ≡ false
unfolding time_id_key
time_id_key_ne u w id k ne = bytes_eq_of_ne (time_id_key u id) (time_id_key w k) (λ e. ne (
    ap (λ r. r.1)
      (sym (cut-append nul (tskey w) k (Lacks-tskey w))
        ∙ ap (cut nul) (sym e)
        ∙ cut-append nul (tskey u) id (Lacks-tskey u))))

module _ ⦃bolt : Bolt⦄ where
  open bolt use {Bucket, get, put, delete, next_sequence}

  -- A write under a key of the object `id` is no write under a key of another.
  put_other :
      {V : Type 0} (b : Bucket V) (x y : Bytes) (v : V)
      → bytes_eq x y ≡ false
      → get (put b x v) y ≡ get b y
  put_other b x y v h = get-put b x y v ∙ ap (λ t. if t then some v else get b y) h

  delete_other :
      {V : Type 0} (b : Bucket V) (x y : Bytes)
      → bytes_eq x y ≡ false
      → get (delete b x) y ≡ get b y
  delete_other b x y h = get-delete b x y ∙ ap (λ t. if t then none else get b y) h

  pub Frame-put_object :
      (a : Db Bucket) (id : Bytes) (o : ObjectVersion)
      → Frame id a (record a { objects = put a.objects id o })
  Frame-put_object a id o = record {
    objects = λ k h. put_other a.objects id k o (bytes_eq_of_ne id k (λ e. h (sym e)));
    queue = λ t n k l h. refl;
    queue_seg = λ t p n k l h. refl;
    leases = λ u k h. refl;
  }

  pub Frame-delete_object :
      (a : Db Bucket) (id : Bytes) → Frame id a (record a { objects = delete a.objects id })
  Frame-delete_object a id = record {
    objects = λ k h. delete_other a.objects id k (bytes_eq_of_ne id k (λ e. h (sym e)));
    queue = λ t n k l h. refl;
    queue_seg = λ t p n k l h. refl;
    leases = λ u k h. refl;
  }

  pub Frame-put_lease :
      (a : Db Bucket) (id : Bytes) (u : Instant) (v : Bytes)
      → Frame id a (record a { leases = put a.leases (time_id_key u id) v })
  Frame-put_lease a id u v = record {
    objects = λ k h. refl;
    queue = λ t n k l h. refl;
    queue_seg = λ t p n k l h. refl;
    leases = λ w k h.
        put_other a.leases (time_id_key u id) (time_id_key w k) v (time_id_key_ne u w id k h);
  }

  pub Frame-delete_lease :
      (a : Db Bucket) (id : Bytes) (u : Instant)
      → Frame id a (record a { leases = delete a.leases (time_id_key u id) })
  Frame-delete_lease a id u = record {
    objects = λ k h. refl;
    queue = λ t n k l h. refl;
    queue_seg = λ t p n k l h. refl;
    leases = λ w k h.
        delete_other a.leases (time_id_key u id) (time_id_key w k) (time_id_key_ne u w id k h);
  }

  pub Frame-put_queue :
      (a : Db Bucket) (id t p : Bytes) (n : ℕ) (v : Bytes)
      → Lacks nul id
      → Frame id a (record a {
        queue = put a.queue (queue_key t n id) v;
        queue_seg = put a.queue_seg (queue_seg_key t p n id) v;
      })
  Frame-put_queue a id t p n v clean = record {
    objects = λ k h. refl;
    queue = λ t' n' k l h.
        put_other a.queue (queue_key t n id) (queue_key t' n' k) v
          (queue_key_ne t t' n n' id k clean l h);
    queue_seg = λ t' p' n' k l h.
        put_other a.queue_seg (queue_seg_key t p n id) (queue_seg_key t' p' n' k) v
          (queue_seg_key_ne t t' p p' n n' id k clean l h);
    leases = λ u k h. refl;
  }

  pub Frame-delete_queue :
      (a : Db Bucket) (id t p : Bytes) (n : ℕ)
      → Lacks nul id
      → Frame id a (record a {
        queue = delete a.queue (queue_key t n id);
        queue_seg = delete a.queue_seg (queue_seg_key t p n id);
      })
  Frame-delete_queue a id t p n clean = record {
    objects = λ k h. refl;
    queue = λ t' n' k l h.
        delete_other a.queue (queue_key t n id) (queue_key t' n' k)
          (queue_key_ne t t' n n' id k clean l h);
    queue_seg = λ t' p' n' k l h.
        delete_other a.queue_seg (queue_seg_key t p n id) (queue_seg_key t' p' n' k)
          (queue_seg_key_ne t t' p p' n n' id k clean l h);
    leases = λ u k h. refl;
  }

  pub Frame-next_sequence :
      (a : Db Bucket) (id : Bytes) → Frame id a (record a { queue = next_sequence a.queue })
  Frame-next_sequence a id = record {
    objects = λ k h. refl;
    queue = λ t n k l h. get-next a.queue (queue_key t n k);
    queue_seg = λ t p n k l h. refl;
    leases = λ u k h. refl;
  }

  -- Nothing of the four buckets changes.
  pub Frame-same :
      (id : Bytes) (a b : Db Bucket)
      → b.objects ≡ a.objects
      → b.queue ≡ a.queue
      → b.queue_seg ≡ a.queue_seg
      → b.leases ≡ a.leases
      → Frame id a b
  Frame-same id a b o q s l = record {
    objects = λ k h. ap (λ t. get t k) o;
    queue = λ t n k c h. ap (λ u. get u (queue_key t n k)) q;
    queue_seg = λ t p n k c h. ap (λ u. get u (queue_seg_key t p n k)) s;
    leases = λ u k h. ap (λ t. get t (time_id_key u k)) l;
  }

  pub Frame-refl : (id : Bytes) (a : Db Bucket) → Frame id a a
  Frame-refl id a = record {
    objects = λ k h. refl;
    queue = λ t n k l h. refl;
    queue_seg = λ t p n k l h. refl;
    leases = λ u k h. refl;
  }

  pub Frame-trans : (id : Bytes) (a b c : Db Bucket) → Frame id a b → Frame id b c → Frame id a c
  Frame-trans id a b c f g = record {
    objects = λ k h. g.objects k h ∙ f.objects k h;
    queue = λ t n k l h. g.queue t n k l h ∙ f.queue t n k l h;
    queue_seg = λ t p n k l h. g.queue_seg t p n k l h ∙ f.queue_seg t p n k l h;
    leases = λ u k h. g.leases u k h ∙ f.leases u k h;
  }

  pub IsIndexed-Frame :
      (id : Bytes) (a b : Db Bucket) (k : Bytes) (o : ObjectVersion)
      → Frame id a b
      → k ≢ id
      → IsIndexed a k o
      → IsIndexed b k o
  IsIndexed-Frame id a b k o f other i = record {
    own_id = i.own_id;
    id_clean = i.id_clean;
    queued = λ e. (
      f.queue o.tenant o.queue_seq k i.id_clean other ∙ (i.queued e).0,
      f.queue_seg o.tenant o.path o.queue_seq k i.id_clean other ∙ (i.queued e).1,
      (i.queued e).2,
    );
    unqueued = i.unqueued;
    leased = λ e. f.leases o.lease_until k other ∙ i.leased e;
  }

  -- An operation on the object `id` keeps the catalog consistent if it leaves that object, where
  -- there is one, indexed.
  pub IsConsistent-Frame :
      (id : Bytes) (a b : Db Bucket)
      → Frame id a b
      → IsConsistent a
      → ((o : ObjectVersion) → get b.objects id ≡ some o → IsIndexed b id o)
      → IsConsistent b
  IsConsistent-Frame id a b f c own = record {
    at_key = λ k o e. elim (Bool-cases (bytes_eq k id)) [
      | inl same ↦
          let p = (bytes_eq_iff k id).0 same in
          subst (λ j. IsIndexed b j o) (sym p) (own o (ap (get b.objects) (sym p) ∙ e))
      | inr other ↦
          let ne : k ≢ id = ne_of_bytes_eq k id other in
          IsIndexed-Frame id a b k o f ne (c.at_key k o (sym (f.objects k ne) ∙ e))
    ];
  }
