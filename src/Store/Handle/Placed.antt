-- ===== src/Store/Handle/Placed.antt =====
-- The catalog entry that `publish` of internal/store/upload.go makes of an upload.
use xsync.Prelude.{ℕ, ◌+◌, ◌≡◌, refl, Option, none, some, if_intro}
use xsync.Prelude.Bytes.{Bytes, codes}
use xsync.Bolt.{Bolt}
use xsync.Model.{State, ObjectVersion, Upload}
use xsync.Store.Ensures.{Ensures, Ensures-bind}
use xsync.Store.Keys.{Instant, ns_key}
use xsync.Store.Tx.{Tx, Db}
use xsync.Store.Queue.{put_queue_entries, enqueue}
use xsync.Store.Policy.{Policy, held}
use xsync.Store.Delete.{is_some}
use xsync.Store.Delivery.{put_object}
use xsync.Store.Namespace.{check_file_path, replace_path}
use xsync.Store.Publish.{ObjectMeta, object_of, drop_upload, place, publish_tx}
use xsync.Store.Index.Placing.{get-put_self}

-- The object has the content of `a`, under its name.
pub record SameContent (a o : ObjectVersion) : Type 0 where
  pub id : o.id ≡ a.id
  pub tenant : o.tenant ≡ a.tenant
  pub path : o.path ≡ a.path
  pub blob_path : o.blob_path ≡ a.blob_path
  pub size : o.size ≡ a.size
  pub sha256 : o.sha256 ≡ a.sha256
  pub created_at : o.created_at ≡ a.created_at

queued-SameContent :
    (a : ObjectVersion) (state : State) (seq visible : ℕ)
    → SameContent a (record a { state = state; queue_seq = seq; visible_at = visible })
queued-SameContent a state seq visible = record {
  id = refl;
  tenant = refl;
  path = refl;
  blob_path = refl;
  size = refl;
  sha256 = refl;
  created_at = refl;
}

module _ ⦃bolt : Bolt⦄ where
  open bolt use {Bucket, get, put, sequence, next_sequence}

  place-Shows :
      (pol : Policy) (now : Instant) (tx : Tx Bucket) (o : ObjectVersion) (from : Option State)
      → (x : ObjectVersion) × (get (place pol now tx o from).objects o.id ≡ some x)
        × SameContent o x
  unfolding place put_object enqueue put_queue_entries
  place-Shows pol now tx o from =
      if_intro
        (λ (t : Tx Bucket). (x : ObjectVersion) × (get t.objects o.id ≡ some x) × SameContent o x)
        (held pol.hold_patterns o.path)
        (λ _. (
          record o { state = State.held },
          get-put_self tx.objects o.id (record o { state = State.held }),
          queued-SameContent o State.held o.queue_seq o.visible_at,
        ))
        (λ _. (
          (enqueue tx (record o { state = State.ready }) (now + pol.publish_delay)).1,
          get-put_self tx.objects o.id
              (enqueue tx (record o { state = State.ready }) (now + pol.publish_delay)).1,
          queued-SameContent o State.ready (sequence (next_sequence tx.queue))
              (now + pol.publish_delay),
        ))

  -- What the catalog has of an upload that was published.
  pub record IsPublished (objects : Bucket ObjectVersion) (namespace : Bucket Bytes) (u : Upload)
      (blob digest : Bytes) (size : ℕ) : Type 0 where
    pub object : ObjectVersion
    pub stored : get objects u.id ≡ some object
    pub named : get namespace (ns_key u.tenant u.path) ≡ some u.id
    pub of_tenant : object.tenant ≡ u.tenant
    pub of_path : object.path ≡ u.path
    pub has_blob : object.blob_path ≡ blob
    pub has_size : object.size ≡ size
    pub has_digest : object.sha256 ≡ digest

  abbrev pub PublishedIn : Upload → Bytes → Bytes → ℕ → Db Bucket → Type 0
  PublishedIn u blob digest size db = IsPublished db.objects db.namespace u blob digest size

  -- The transaction of an upload that is not yet in the catalog, if it succeeds, has published it.
  pub publish_tx-Shows :
      (pol : Policy) (now : Instant) (tx : Tx Bucket) (u : Upload) (blob digest : Bytes) (size : ℕ)
      (meta : Option ObjectMeta)
      → get tx.objects u.id ≡ none
      → Ensures
          (λ (r : Tx Bucket × Option ObjectVersion). PublishedIn u blob digest size r.0.db)
          (publish_tx pol now tx u blob digest size meta)
  unfolding publish_tx object_of drop_upload
  publish_tx-Shows pol now tx u blob digest size meta new =
      let P : Tx Bucket × Option ObjectVersion → Type 0 =
        (λ r. PublishedIn u blob digest size r.0.db) in
      if_intro (Ensures P) (is_some (get tx.objects u.id)) (λ e. cc)
        (λ _. Ensures-bind P (check_file_path tx.db u.tenant u.path) _ (λ _ _.
          let numbered : Tx Bucket = record tx {
            db = record tx.db { versions = next_sequence tx.versions };
          } in
          let o = object_of u blob digest size (sequence numbered.versions) now meta in
          let replaced : Tx Bucket × Option ObjectVersion =
            replace_path now numbered u.tenant u.path pol.supersede (codes "superseded") in
          let placed : Tx Bucket = place pol now replaced.0 o none in
          let (x, stored, same) = place-Shows pol now replaced.0 o none in
          let shown : IsPublished placed.objects
              (put placed.namespace (ns_key u.tenant u.path) u.id) u blob digest size =
            record {
              object = x;
              stored = stored;
              named = get-put_self placed.namespace (ns_key u.tenant u.path) u.id;
              of_tenant = same.tenant;
              of_path = same.path;
              has_blob = same.blob_path;
              has_size = same.size;
              has_digest = same.sha256;
            } in
          if_intro (λ (t : Tx Bucket). PublishedIn u blob digest size t.db)
            (is_some (get placed.uploads u.id)) (λ _. shown) (λ _. shown)))
