-- ===== src/Store/Lifecycle/Publication.antt =====
-- Where `publish` of internal/store/upload.go puts a new object.
use xsync.Prelude.{ℕ, ◌+◌, ◌≡◌, refl, true, false, Option, none, some, if_intro}
use xsync.Prelude.Bytes.{Bytes, codes}
use xsync.Bolt.{Bolt}
use xsync.Model.{State, ObjectVersion, Upload}
use xsync.Store.Ensures.{Ensures, Ensures-bind}
use xsync.Store.Keys.{Instant, ns_key, time_id_key, queue_key, queue_seg_key, queue_value}
use xsync.Store.Tx.{Tx, Db}
use xsync.Store.Queue.{put_queue_entries, enqueue}
use xsync.Store.Policy.{Policy, held}
use xsync.Store.Delete.{is_some}
use xsync.Store.Delivery.{put_object}
use xsync.Store.Namespace.{check_file_path, replace_path}
use xsync.Store.Publish.{ObjectMeta, object_of, drop_upload, place, publish_tx}
use xsync.Store.Index.Placing.{get-put_self}

module _ ⦃bolt : Bolt⦄ where
  open bolt use {Bucket, get, put, sequence, next_sequence}

  -- `x` is HELD and in the index by creation, out of the queue.
  pub record IsHeld (held : Bucket (Unit {0})) (x : ObjectVersion) : Type 0 where
    pub state : x.state ≡ State.held
    pub entry : get held (time_id_key x.created_at x.id) ≡ some tt

  -- `x` is READY and in both queues, to be delivered from `visible` on.
  pub record IsQueued (queue queue_seg : Bucket Bytes) (visible : Instant) (x : ObjectVersion)
      : Type 0 where
    pub state : x.state ≡ State.ready
    pub visible_at : x.visible_at ≡ visible
    pub entry : get queue (queue_key x.tenant x.queue_seq x.id) ≡ some (queue_value visible x.path)
    pub seg_entry :
        get queue_seg (queue_seg_key x.tenant x.path x.queue_seq x.id)
        ≡ some (queue_value visible x.path)

  -- The object of the upload, under its id and its name, in the index that its path asks for.
  pub record IsPlaced (pol : Policy) (now : Instant) (u : Upload) (objects : Bucket ObjectVersion)
      (namespace : Bucket Bytes) (shelf : Bucket (Unit {0})) (queue queue_seg : Bucket Bytes)
      : Type 0 where
    pub object : ObjectVersion
    pub stored : get objects u.id ≡ some object
    pub named : get namespace (ns_key u.tenant u.path) ≡ some u.id
    pub own_id : object.id ≡ u.id
    pub of_tenant : object.tenant ≡ u.tenant
    pub of_path : object.path ≡ u.path
    pub temporary : held pol.hold_patterns u.path ≡ true → IsHeld shelf object
    pub final :
        held pol.hold_patterns u.path ≡ false
        → IsQueued queue queue_seg (now + pol.publish_delay) object

  abbrev pub PlacedIn : Policy → Instant → Upload → Db Bucket → Type 0
  PlacedIn pol now u db = IsPlaced pol now u db.objects db.namespace db.held db.queue db.queue_seg

  -- The object that `place` stores.
  abbrev PlacedAs : Policy → Instant → ObjectVersion → Db Bucket → Type 0
  PlacedAs pol now o db =
      (x : ObjectVersion) × (get db.objects o.id ≡ some x)
      × (x.id ≡ o.id)
      × (x.tenant ≡ o.tenant)
      × (x.path ≡ o.path)
      × (held pol.hold_patterns o.path ≡ true → IsHeld db.held x)
      × (held pol.hold_patterns o.path ≡ false
          → IsQueued db.queue db.queue_seg (now + pol.publish_delay) x)

  place-PlacedAs :
      (pol : Policy) (now : Instant) (tx : Tx Bucket) (o : ObjectVersion) (from : Option State)
      → PlacedAs pol now o (place pol now tx o from).db
  unfolding place put_object enqueue put_queue_entries
  place-PlacedAs pol now tx o from =
      if_intro (λ (t : Tx Bucket). PlacedAs pol now o t.db) (held pol.hold_patterns o.path)
        (λ h. (
          record o { state = State.held },
          get-put_self tx.objects o.id (record o { state = State.held }),
          refl,
          refl,
          refl,
          (λ _. record {
            state = refl;
            entry = get-put_self tx.held (time_id_key o.created_at o.id) tt;
          }),
          (λ q. cc (h, q)),
        ))
        (λ h.
          let visible : Instant = now + pol.publish_delay in
          let n : ℕ = sequence (next_sequence tx.queue) in
          let x : ObjectVersion = record o {
            state = State.ready;
            queue_seq = n;
            visible_at = visible;
          } in
          (
            x,
            get-put_self tx.objects o.id x,
            refl,
            refl,
            refl,
            (λ q. cc (h, q)),
            (λ _. record {
              state = refl;
              visible_at = refl;
              entry =
                  get-put_self (next_sequence tx.queue) (queue_key o.tenant n o.id)
                    (queue_value visible o.path);
              seg_entry =
                  get-put_self tx.queue_seg (queue_seg_key o.tenant o.path n o.id)
                    (queue_value visible o.path);
            }),
          ))

  -- `publish` of an upload that is not in the catalog yet, if it succeeds, stores its object under
  -- the upload's id and gives it the upload's name. Under a temporary name (one that a hold pattern
  -- of the policy matches) it is HELD, with its entry in the index by creation; under any other it
  -- is READY, in both queues, to be delivered after the policy's delay.
  pub publish_tx-IsPlaced :
      (pol : Policy) (now : Instant) (tx : Tx Bucket) (u : Upload) (blob digest : Bytes) (size : ℕ)
      (meta : Option ObjectMeta)
      → get tx.objects u.id ≡ none
      → Ensures
          (λ (r : Tx Bucket × Option ObjectVersion). PlacedIn pol now u r.0.db)
          (publish_tx pol now tx u blob digest size meta)
  unfolding publish_tx object_of drop_upload
  publish_tx-IsPlaced pol now tx u blob digest size meta new =
      let P : Tx Bucket × Option ObjectVersion → Type 0 = (λ r. PlacedIn pol now u r.0.db) in
      if_intro (Ensures P) (is_some (get tx.objects u.id)) (λ e. cc)
        (λ _. Ensures-bind P (check_file_path tx.db u.tenant u.path) _ (λ _ _.
          let numbered : Tx Bucket = record tx {
            db = record tx.db { versions = next_sequence tx.versions };
          } in
          let o = object_of u blob digest size (sequence numbered.versions) now meta in
          let replaced : Tx Bucket × Option ObjectVersion =
            replace_path now numbered u.tenant u.path pol.supersede (codes "superseded") in
          let placed : Tx Bucket = place pol now replaced.0 o none in
          let (x, stored, own, of, path, h, q) = place-PlacedAs pol now replaced.0 o none in
          let shown : IsPlaced pol now u placed.objects
              (put placed.namespace (ns_key u.tenant u.path) u.id) placed.held placed.queue
              placed.queue_seg =
            record {
              object = x;
              stored = stored;
              named = get-put_self placed.namespace (ns_key u.tenant u.path) u.id;
              own_id = own;
              of_tenant = of;
              of_path = path;
              temporary = h;
              final = q;
            } in
          if_intro (λ (t : Tx Bucket). PlacedIn pol now u t.db) (is_some (get placed.uploads u.id))
            (λ _. shown) (λ _. shown)))
