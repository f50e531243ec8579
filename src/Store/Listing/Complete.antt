-- ===== src/Store/Listing/Complete.antt =====
-- `ListAll` of internal/store/namespace.go against the catalog.
use xsync.Prelude.{
  ℕ, zero, suc, ◌+◌, ◌<◌, ◌≤◌, ◌≡◌, ◌⊎◌, refl, sym, ◌∙◌, ap, Bool, true, false, not, ◌&&◌, Option,
  none, some, List, [], ◌∷◌, ◌++◌, ◌==◌, length, if◌then◌else◌, if_intro, Bool-cases, inl, inr,
  arith,
}
use mathlib.Core.List.{append_assoc, append-nil}
use xsync.Prelude.Bytes.{Bytes, bytes_lt, bytes_eq, bytes_eq_iff, has_prefix}
use xsync.Prelude.Order.{bytes_lt_irrefl, bytes_lt_trans, bytes_lt_total}
use xsync.Prelude.Assoc.{Assoc, Above, IsAscending, from_key}
use xsync.Bolt.{Bolt}
use xsync.Model.{ObjectVersion}
use xsync.Store.Keys.{ns_key}
use xsync.Store.Tx.{Db}
use xsync.Store.Listing.{
  ListPage, empty_page, fold_key, add_object, add_entry, walk, list_keys, list_pages, list_all,
}
use xsync.Store.Listing.Selected.{
  name_in, is_wanted, selected, beyond, has_prefix-ns_key, bytes_lt-ns_key, below_after,
  below_prefix, selected-from_key, selected-past, selected-Above, selected-IsAscending,
  selected-beyond,
}

not_below :
    (k from p : Bytes) → bytes_lt k from ≡ false → bytes_lt from p ≡ false → bytes_lt k p ≡ false
not_below k from p h g = elim (Bool-cases (bytes_lt k p)) [
  | inr e ↦ e
  | inl e ↦ elim (Bool-cases (bytes_eq from p)) [
    | inl f ↦ cc ((bytes_eq_iff from p).0 f, e, h)
    | inr f ↦ cc (bytes_lt_trans k p from e (bytes_lt_total from p f g), h)
  ]
]

later_stays : (q x n : Bytes) → bytes_lt q x ≡ false → bytes_lt n x ≡ true → bytes_lt q n ≡ false
later_stays q x n h g = elim (Bool-cases (bytes_lt q n)) [
  | inr e ↦ e
  | inl e ↦ cc (bytes_lt_trans q n x e g, h)
]

above_stays : (lo x q : Bytes) → bytes_lt lo x ≡ true → bytes_lt q x ≡ false → bytes_lt lo q ≡ true
above_stays lo x q h g = elim (Bool-cases (bytes_eq q x)) [
  | inl e ↦ cc ((bytes_eq_iff q x).0 e, h)
  | inr e ↦ bytes_lt_trans lo x q h (bytes_lt_total q x e g)
]

module _ ⦃bolt : Bolt⦄ (db : Db bolt.Bucket) (tenant prefix : Bytes) where
  open bolt use {Bucket, get, entries, seek, ascending, seek_entries}

  -- The objects of a list of names.
  abbrev pub objects_of : Assoc Bytes → List ObjectVersion
  objects_of [] = []
  objects_of ((x, id) ∷ l) =
      let rest = objects_of l in elim (get db.objects id) [ none ↦ rest | some o ↦ o ∷ rest ]

  -- The page that names make: as many as there is room for.
  abbrev fill : ℕ → ListPage → Assoc Bytes → ListPage
  fill room page [] = page
  fill zero page (x ∷ l) = record page { truncated = true }
  fill (suc room) page ((x, id) ∷ l) = fill room (add_entry db x false id page) l

  -- No key is below the prefix.
  abbrev Low : Assoc Bytes → Type 0
  Low [] = Unit {0}
  Low ((k, id) ∷ m) = (bytes_lt k (ns_key tenant prefix) ≡ false) × Low m

  -- One round of the loop, by its tests: `more` goes on, after a name that was passed over or taken.
  round :
      (a b c full : Bool) (room : ℕ) (page : ListPage) (x id : Bytes) (l : Assoc Bytes)
      (more : Bool → Option ListPage)
      → ((a && b) ≡ false → l ≡ [])
      → more true ≡ some (fill room page l)
      → (room ≡ 0 → full ≡ true)
      → ((r : ℕ)
          → room ≡ suc r
          → (full ≡ false) × (more false ≡ some (fill r (add_entry db x false id page) l)))
      → (if not a
          then some page
          else if not b
          then some page
          else if not c
          then more (not c)
          else if full
          then some (record page { truncated = true })
          else more (not c))
        ≡ some (fill room page (if (a && b) && c then (x, id) ∷ l else l))
  round false b c full room page x id l more none_left passed last taken =
      ap (λ m. some (fill room page m)) (sym (none_left refl))
  round true false c full room page x id l more none_left passed last taken =
      ap (λ m. some (fill room page m)) (sym (none_left refl))
  round true true false full room page x id l more none_left passed last taken = passed
  round true true true full zero page x id l more none_left passed last taken =
      ap (λ b. if b then some (record page { truncated = true }) else more false) (last refl)
  round true true true full (suc r) page x id l more none_left passed last taken =
      ap (λ b. if b then some (record page { truncated = true }) else more false) (taken r refl).0
      ∙ (taken r refl).1

  module _ (after : Bytes) (limit : ℕ) where
    walk-fill :
        (fuel room count : ℕ) (page : ListPage) (m : Assoc Bytes)
        → length m < fuel
        → count + room ≡ limit
        → IsAscending m
        → Low m
        → walk db tenant prefix [] after limit fuel count page m
          ≡ some (fill room page (selected tenant prefix after m))
    unfolding walk fold_key
    walk-fill zero room count page m h e a low = absurd (omega (arith, h))
    walk-fill (suc fuel) room count page [] h e a low = refl
    walk-fill (suc fuel) room count page ((k, id) ∷ m) h e a low =
        let x = name_in tenant prefix k in
        round (has_prefix k (ns_key tenant [])) (has_prefix x prefix) (bytes_lt after x)
          (count == limit) room page x id (selected tenant prefix after m)
          (λ passed.
            walk db tenant prefix [] after limit fuel (if passed then count else suc count)
              (if passed then page else add_entry db x false id page) m)
          (λ f.
            selected-past tenant prefix after k m low.0 (has_prefix-ns_key tenant prefix k ∙ f) a.0)
          (walk-fill fuel room count page m (omega (arith, h)) e a.1 low.1)
          (λ z. ground (arith, e, z))
          (λ r z. (
            ground (arith, e, z),
            walk-fill fuel r (suc count) (add_entry db x false id page) m (omega (arith, h))
                (omega (arith, e, z)) a.1 low.1,
          ))

  Low-Above :
      (k : Bytes) (m : Assoc Bytes) → bytes_lt k (ns_key tenant prefix) ≡ false → Above k m → Low m
  Low-Above k [] h a = tt
  Low-Above k ((j, id) ∷ m) h a = (
    elim (Bool-cases (bytes_lt j (ns_key tenant prefix))) [
      | inl e ↦ cc (bytes_lt_trans k j (ns_key tenant prefix) a.0 e, h)
      | inr e ↦ e
    ],
    Low-Above k m h a.1,
  )

  -- What the cursor has after a seek that is not below the prefix.
  from_key-Low :
      (from : Bytes) (m : Assoc Bytes)
      → bytes_lt from (ns_key tenant prefix) ≡ false
      → IsAscending m
      → Low (from_key from m)
  unfolding from_key
  from_key-Low from [] h a = tt
  from_key-Low from ((k, id) ∷ m) h a =
      let rest = from_key-Low from m h a.1 in
      if_intro Low (bytes_lt k from) (λ _. rest)
        (λ e. let low = not_below k from (ns_key tenant prefix) e h in (low, Low-Above k m low a.0))

  add_object-objects_of :
      (objects : List ObjectVersion) (x id : Bytes) (l : Assoc Bytes)
      → add_object objects (get db.objects id) ++ objects_of l ≡ objects ++ objects_of ((x, id) ∷ l)
  unfolding add_object
  add_object-objects_of objects x id l = go (get db.objects id)
    where
      go :
          (o : Option ObjectVersion)
          → add_object objects o ++ objects_of l
            ≡ objects ++ (elim o [ none ↦ objects_of l | some v ↦ v ∷ objects_of l ])
      go none = refl
      go (some v) = append_assoc objects (v ∷ []) (objects_of l)

  -- A page has all names, or it is truncated and the rest comes after its last name.
  abbrev Fills : ℕ → Bytes → ListPage → Assoc Bytes → ListPage → Type 0
  Fills room lo page l q =
      ((q.truncated ≡ false) × (q.objects ≡ page.objects ++ objects_of l))
      ⊎ ((q.truncated ≡ true)
          × (q.objects ++ objects_of (beyond tenant prefix q.next_after l)
              ≡ page.objects ++ objects_of l)
          × (length (beyond tenant prefix q.next_after l) + room ≡ length l)
          × (bytes_lt q.next_after page.next_after ≡ false)
          × ((room ≡ 0) ⊎ (bytes_lt lo q.next_after ≡ true)))

  beyond-Above : (n : Bytes) (l : Assoc Bytes) → Above n l → beyond tenant prefix n l ≡ l
  beyond-Above n [] a = refl
  beyond-Above n ((x, id) ∷ l) a =
      ap (λ b. if b then (x, id) ∷ beyond tenant prefix n l else beyond tenant prefix n l) a.0
      ∙ ap (λ r. (x, id) ∷ r) (beyond-Above n l a.1)

  fill-Fills :
      (room : ℕ) (lo : Bytes) (page : ListPage) (l : Assoc Bytes)
      → page.truncated ≡ false
      → IsAscending l
      → Above page.next_after l
      → Above lo l
      → Fills room lo page l (fill room page l)
  unfolding add_entry
  fill-Fills room lo page [] t s a b = inl (t, sym (append-nil page.objects))
  fill-Fills zero lo page ((x, id) ∷ l) t s a b =
      let same = beyond-Above page.next_after ((x, id) ∷ l) a in
      inr (
        refl,
        ap (λ r. page.objects ++ objects_of r) same,
        ap (λ r. length r + 0) same ∙ omega arith,
        bytes_lt_irrefl page.next_after,
        inl refl,
      )
  fill-Fills (suc r) lo page ((x, id) ∷ l) t s a b =
      let q = fill r (add_entry db x false id page) l in
      let added = add_object-objects_of page.objects x id l in
      elim (fill-Fills r x (add_entry db x false id page) l t s.1 s.0 s.0) [
        | inl (f, g) ↦ inl (f, g ∙ added)
        | inr (f, g, n, o, z) ↦
            let dropped : beyond tenant prefix q.next_after ((x, id) ∷ l)
                ≡ beyond tenant prefix q.next_after l =
              ap
                (λ c.
                  if c
                  then (x, id) ∷ beyond tenant prefix q.next_after l
                  else beyond tenant prefix q.next_after l)
                o in
            inr (
              f,
              ap (λ m. q.objects ++ objects_of m) dropped ∙ g ∙ added,
              ap (λ m. length m + suc r) dropped ∙ omega (arith, n),
              later_stays q.next_after x page.next_after o a.0,
              inr (above_stays lo x q.next_after b.0 o),
            )
      ]

  from_key-IsAscending :
      (from : Bytes) (m : Assoc Bytes) → IsAscending m → IsAscending (from_key from m)
  unfolding from_key
  from_key-IsAscending from [] a = tt
  from_key-IsAscending from ((k, id) ∷ m) a =
      let rest = from_key-IsAscending from m a.1 in
      if_intro (λ (l : Assoc Bytes). IsAscending l) (bytes_lt k from) (λ _. rest) (λ _. a)

  length-from_key : (from : Bytes) (m : Assoc Bytes) → length (from_key from m) ≤ length m
  unfolding from_key
  length-from_key from [] = omega arith
  length-from_key from ((k, id) ∷ m) = ground (arith, length-from_key from m)

  -- All names of the catalog, as the bucket has them.
  abbrev names : Assoc Bytes
  names = entries db.namespace

  list_keys-fill :
      (after : Bytes)
      → list_keys (suc (length names)) db tenant prefix [] after 1000
        ≡ some (fill 1000 empty_page (selected tenant prefix after names))
  unfolding list_keys
  list_keys-fill after = elim (Bool-cases (bytes_lt prefix after)) [
    | inl e ↦
        ap
          (λ b.
            walk db tenant prefix [] after 1000 (suc (length names)) 0 empty_page
              (seek db.namespace (ns_key tenant (if b then after else prefix))))
          e
        ∙ go (ns_key tenant after)
            (later_stays (ns_key tenant after) (ns_key tenant after) (ns_key tenant prefix)
              (bytes_lt_irrefl (ns_key tenant after))
              (bytes_lt-ns_key tenant prefix prefix after ∙ e))
            (below_after tenant prefix after)
    | inr e ↦
        ap
          (λ b.
            walk db tenant prefix [] after 1000 (suc (length names)) 0 empty_page
              (seek db.namespace (ns_key tenant (if b then after else prefix))))
          e
        ∙ go (ns_key tenant prefix) (bytes_lt_irrefl (ns_key tenant prefix))
            (below_prefix tenant prefix after)
  ]
    where
      go :
          (from : Bytes)
          → bytes_lt from (ns_key tenant prefix) ≡ false
          → ((k : Bytes) → bytes_lt k from ≡ true → is_wanted tenant prefix after k ≡ true → ⊥)
          → walk db tenant prefix [] after 1000
              (suc (length names))
              0
              empty_page
              (seek db.namespace from)
            ≡ some (fill 1000 empty_page (selected tenant prefix after names))
      go from low h =
          ap (walk db tenant prefix [] after 1000 (suc (length names)) 0 empty_page)
            (seek_entries db.namespace from)
          ∙ walk-fill after 1000 (suc (length names)) 1000 0 empty_page (from_key from names)
              (omega (arith, length-from_key from names)) (omega arith)
              (from_key-IsAscending from names (ascending db.namespace))
              (from_key-Low from names low (ascending db.namespace))
          ∙ ap (λ l. some (fill 1000 empty_page l))
              (selected-from_key tenant prefix after from names h)

  Above-empty : (after : Bytes) (l : Assoc Bytes) → Above after l → Above [] l
  unfolding bytes_lt
  Above-empty after [] a = tt
  Above-empty after ((x, id) ∷ l) a = (nonempty after x a.0, Above-empty after l a.1)
    where
      nonempty : (a x : Bytes) → bytes_lt a x ≡ true → bytes_lt [] x ≡ true
      nonempty [] x h = h
      nonempty (c ∷ a) [] h = cc (h)
      nonempty (c ∷ a) (d ∷ x) h = refl

  list_pages-objects :
      (fuel : ℕ) (after : Bytes)
      → length (selected tenant prefix after names) < fuel
      → list_pages fuel db tenant prefix after
        ≡ some (objects_of (selected tenant prefix after names))
  unfolding list_pages
  list_pages-objects zero after h = absurd (omega (arith, h))
  list_pages-objects (suc fuel) after h =
      let l = selected tenant prefix after names in
      let q = fill 1000 empty_page l in
      let Page : Option ListPage → Option (List ObjectVersion) = λ o. elim o [
        | none ↦ none
        | some page ↦
            let rest : Option (List ObjectVersion) =
              elim (list_pages fuel db tenant prefix page.next_after) [
                | none ↦ none
                | some objects ↦ some (page.objects ++ objects)
              ] in
            if page.truncated then rest else some page.objects
      ] in
      ap Page (list_keys-fill after)
      ∙ elim (fill-Fills 1000 after empty_page l refl
          (selected-IsAscending tenant prefix after names (ascending db.namespace))
          (Above-empty after l (selected-Above tenant prefix after names))
          (selected-Above tenant prefix after names)) [
            | inl (t, o) ↦
                ap
                  (λ b.
                    if b
                    then (let rest : Option (List ObjectVersion) =
                          elim (list_pages fuel db tenant prefix q.next_after) [
                            | none ↦ none
                            | some objects ↦ some (q.objects ++ objects)
                          ] in
                        rest)
                    else some q.objects)
                  t
                ∙ ap some o
            | inr (t, g, n, o, inl z) ↦ absurd (omega (arith, z))
            | inr (t, g, n, o, inr z) ↦
                let next : selected tenant prefix q.next_after names
                    ≡ beyond tenant prefix q.next_after l =
                  selected-beyond tenant prefix after q.next_after names z in
                let shorter : length (selected tenant prefix q.next_after names) + 1000 ≡ length l =
                  ap (λ m. length m + 1000) next ∙ n in
                ap
                  (λ b.
                    if b
                    then (let rest : Option (List ObjectVersion) =
                          elim (list_pages fuel db tenant prefix q.next_after) [
                            | none ↦ none
                            | some objects ↦ some (q.objects ++ objects)
                          ] in
                        rest)
                    else some q.objects)
                  t
                ∙ ap
                    (λ (r : Option (List ObjectVersion)).
                      let rest : Option (List ObjectVersion) = elim r [
                        | none ↦ none
                        | some objects ↦ some (q.objects ++ objects)
                      ] in
                      rest)
                    (list_pages-objects fuel q.next_after (omega (arith, shorter, h)))
                ∙ ap (λ m. some (q.objects ++ objects_of m)) next
                ∙ ap some g
          ]

  length-selected : (m : Assoc Bytes) → length (selected tenant prefix [] m) ≤ length m
  length-selected [] = omega arith
  length-selected ((k, id) ∷ m) = ground (arith, length-selected m)

  -- `ListAll` ends, and returns the published objects of the tenant's names under the prefix, each
  -- once and in the byte order of the names, however many pages they take.
  pub list_all-objects :
      list_all db tenant prefix
      ≡ some (objects_of (selected tenant prefix [] (entries db.namespace)))
  unfolding list_all
  list_all-objects =
      list_pages-objects (suc (length names)) [] (omega (arith, length-selected names))
