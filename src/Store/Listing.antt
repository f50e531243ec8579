-- ===== src/Store/Listing.antt =====
-- `ListKeys` and `ListAll` of internal/store/namespace.go: pages of a tenant's published names. The
-- walk has fuel. A limit that is not positive is written 0.
pub mod Selected
pub mod Complete
mod Examples
use xsync.Prelude.{
  ℕ, zero, suc, ◌+◌, Bool, true, false, not, ◌||◌, Option, none, some, List, [], ◌∷◌, ◌++◌, ◌==◌,
  ltb, length, if◌then◌else◌,
}
use xsync.Prelude.Bytes.{Bytes, bytes_lt, has_prefix, take}
use xsync.Prelude.Assoc.{Assoc}
use xsync.Bolt.{Bolt}
use xsync.Model.{ObjectVersion}
use xsync.Store.Keys.{ns_key}
use xsync.Store.Tx.{Db}

pub record ListPage : Type 0 where
  pub objects : List ObjectVersion
  pub common_prefixes : List Bytes
  pub truncated : Bool
  pub next_after : Bytes

abbrev pub empty_page : ListPage
empty_page = record { objects = []; common_prefixes = []; truncated = false; next_after = [] }

-- s[n:]
unfoldable pub drop : ℕ → Bytes → Bytes
drop zero s = s
drop (suc n) [] = []
drop (suc n) (c ∷ s) = drop n s

-- strings.Index(s, sep)
unfoldable pub index : Bytes → Bytes → Option ℕ
index [] sep = if has_prefix [] sep then some 0 else none
index (c ∷ s) sep =
    let later : Option ℕ = elim (index s sep) [ none ↦ none | some i ↦ some (i + 1) ] in
    if has_prefix (c ∷ s) sep then some 0 else later

-- The entry of a key, folded at the delimiter after the prefix, and whether it is folded.
unfoldable pub fold_key : Bytes → Bytes → Bytes → Bytes × Bool
unfolding index drop
fold_key prefix [] key = (key, false)
fold_key prefix (d ∷ delimiter) key = elim (index (drop (length prefix) key) (d ∷ delimiter)) [
  | none ↦ (key, false)
  | some i ↦ (take (length prefix + i + length (d ∷ delimiter)) key, true)
]

module _ ⦃bolt : Bolt⦄ where
  open bolt use {Bucket, get, entries, seek}

  -- An object that is not there is left out.
  unfoldable pub add_object : List ObjectVersion → Option ObjectVersion → List ObjectVersion
  add_object objects none = objects
  add_object objects (some o) = objects ++ o ∷ []

  unfoldable pub add_entry : Db Bucket → Bytes → Bool → Bytes → ListPage → ListPage
  unfolding add_object
  add_entry db entry true id page = record page {
    common_prefixes = page.common_prefixes ++ entry ∷ [];
    next_after = entry;
  }
  add_entry db entry false id page = record page {
    objects = add_object page.objects (get db.objects id);
    next_after = entry;
  }

  -- The loop, from what the cursor still has. A folded entry is skipped by a seek.
  unfoldable pub walk :
      Db Bucket
      → Bytes
      → Bytes
      → Bytes
      → Bytes
      → ℕ
      → ℕ
      → ℕ
      → ListPage
      → Assoc Bytes
      → Option ListPage
  unfolding fold_key drop add_entry
  walk db tenant prefix delimiter start_after limit zero count page m = none
  walk db tenant prefix delimiter start_after limit (suc fuel) count page [] = some page
  walk db tenant prefix delimiter start_after limit (suc fuel) count page ((k, id) ∷ rest) =
      let base = ns_key tenant [] in
      let key = drop (length base) k in
      let (entry, folded) = fold_key prefix delimiter key in
      let next = if folded then seek db.namespace (base ++ (entry ++ 255 ∷ [])) else rest in
      let passed = not (bytes_lt start_after entry) in
      let more =
        walk db tenant prefix delimiter start_after limit fuel (if passed then count else suc count)
          (if passed then page else add_entry db entry folded id page) next in
      if not (has_prefix k base)
      then some page
      else if not (has_prefix key prefix)
      then some page
      else if passed
      then more
      else if count == limit
      then some (record page { truncated = true })
      else more

  unfoldable pub list_keys : ℕ → Db Bucket → Bytes → Bytes → Bytes → Bytes → ℕ → Option ListPage
  unfolding walk
  list_keys fuel db tenant prefix delimiter start_after limit =
      let from = if bytes_lt prefix start_after then start_after else prefix in
      walk db tenant prefix delimiter start_after
        (if (limit == 0) || ltb 1000 limit then 1000 else limit) fuel 0 empty_page
        (seek db.namespace (ns_key tenant from))

  -- The pages of `ListAll`, after a name.
  unfoldable pub list_pages : ℕ → Db Bucket → Bytes → Bytes → Bytes → Option (List ObjectVersion)
  unfolding list_keys
  list_pages zero db tenant prefix after = none
  list_pages (suc fuel) db tenant prefix after =
      elim (list_keys (suc (length (entries db.namespace))) db tenant prefix [] after 1000) [
        | none ↦ none
        | some page ↦
            let rest : Option (List ObjectVersion) =
              elim (list_pages fuel db tenant prefix page.next_after) [
                | none ↦ none
                | some objects ↦ some (page.objects ++ objects)
              ] in
            if page.truncated then rest else some page.objects
      ]

  unfoldable pub list_all : Db Bucket → Bytes → Bytes → Option (List ObjectVersion)
  unfolding list_pages
  list_all db tenant prefix = list_pages (suc (length (entries db.namespace))) db tenant prefix []
