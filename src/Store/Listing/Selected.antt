-- ===== src/Store/Listing/Selected.antt =====
-- The names that a listing of internal/store/namespace.go is about, and how the walk meets them.
use xsync.Prelude.{
  ℕ, ◌≡◌, refl, sym, ◌∙◌, ap, Bool, true, false, ◌&&◌, [], ◌∷◌, ◌++◌, length, if◌then◌else◌,
  if_intro, Bool-cases, inl, inr, arith,
}
use mathlib.Core.List.{append_assoc}
use xsync.Prelude.Bytes.{Bytes, bytes_lt, has_prefix, bytes_lt-append}
use xsync.Prelude.Order.{bytes_lt_irrefl, bytes_lt_trans, bytes_lt-has_prefix, has_prefix_between}
use xsync.Prelude.Assoc.{Assoc, Above, IsAscending, from_key}
use xsync.Store.Keys.{ns_key, nul}
use xsync.Store.Listing.{drop}

module _ (tenant prefix : Bytes) where
  -- The name in a key of the tenant.
  abbrev pub name_in : Bytes → Bytes
  name_in k = drop (length (ns_key tenant [])) k

  -- The name is the tenant's, under the prefix, and after `after`.
  abbrev pub is_wanted : Bytes → Bytes → Bool
  is_wanted after k =
      (has_prefix k (ns_key tenant []) && has_prefix (name_in k) prefix)
      && bytes_lt after (name_in k)

  -- In byte order: the names of the tenant under the prefix that come after `after`, with their
  -- objects' ids.
  abbrev pub selected : Bytes → Assoc Bytes → Assoc Bytes
  selected after [] = []
  selected after ((k, id) ∷ m) =
      let rest = selected after m in if is_wanted after k then (name_in k, id) ∷ rest else rest

has_prefix_split :
    (t : Bytes) (c : ℕ) (p k : Bytes)
    → has_prefix k (t ++ (c ∷ []) ++ p)
      ≡ has_prefix k (t ++ c ∷ []) && has_prefix (drop (length (t ++ c ∷ [])) k) p
unfolding has_prefix drop
has_prefix_split [] c p [] = refl
has_prefix_split [] c p (x ∷ k) = ground arith
has_prefix_split (b ∷ t) c p [] = refl
has_prefix_split (b ∷ t) c p (x ∷ k) = ground (arith, has_prefix_split t c p k)

-- A text with a prefix is the prefix and the rest.
has_prefix_eq : (p k : Bytes) → has_prefix k p ≡ true → k ≡ p ++ drop (length p) k
unfolding has_prefix drop
has_prefix_eq [] k h = refl
has_prefix_eq (c ∷ p) [] h = cc
has_prefix_eq (c ∷ p) (x ∷ k) h = ground (arith, has_prefix_eq p k, h)

if_false {ℓ} : {A : Type ℓ} (b : Bool) (x y : A) → b ≡ false → (if b then x else y) ≡ y
if_false {A} b x y h = ap (λ c. if c then x else y) h

and_false : (a b : Bool) → a ≡ false → (a && b) ≡ false
and_false a b h = ap (λ c. c && b) h

and_true : (a b : Bool) → (a && b) ≡ true → (a ≡ true) × (b ≡ true)
and_true a b h = (ground (arith, h), ground (arith, h))

module _ (tenant prefix : Bytes) where
  ns_key_eq : (name : Bytes) → ns_key tenant [] ++ name ≡ ns_key tenant name
  unfolding ns_key
  ns_key_eq name = append_assoc tenant (nul ∷ []) name

  pub has_prefix-ns_key :
      (k : Bytes)
      → has_prefix k (ns_key tenant prefix)
        ≡ has_prefix k (ns_key tenant []) && has_prefix (name_in tenant prefix k) prefix
  unfolding ns_key
  has_prefix-ns_key k =
      ap (has_prefix k) (sym (ns_key_eq prefix)) ∙ has_prefix_split tenant nul prefix k

  pub bytes_lt-ns_key : (a b : Bytes) → bytes_lt (ns_key tenant a) (ns_key tenant b) ≡ bytes_lt a b
  unfolding ns_key
  bytes_lt-ns_key a b = bytes_lt-append tenant (nul ∷ a) (nul ∷ b) ∙ bytes_lt-append (nul ∷ []) a b

  pub name_in_eq :
      (k : Bytes)
      → has_prefix k (ns_key tenant []) ≡ true
      → k ≡ ns_key tenant (name_in tenant prefix k)
  name_in_eq k h = has_prefix_eq (ns_key tenant []) k h ∙ ns_key_eq (name_in tenant prefix k)

  -- What lies below the text that the walk seeks is not wanted.
  pub below_after :
      (after k : Bytes)
      → bytes_lt k (ns_key tenant after) ≡ true
      → is_wanted tenant prefix after k ≡ true
      → ⊥
  below_after after k h w =
      let name = name_in tenant prefix k in
      let (r, below) =
        and_true (has_prefix k (ns_key tenant []) && has_prefix name prefix) (bytes_lt after name)
          w in
      let (p, q) = and_true (has_prefix k (ns_key tenant [])) (has_prefix name prefix) r in
      let back : bytes_lt name after ≡ true =
        sym (bytes_lt-ns_key name after)
        ∙ ap (λ j. bytes_lt j (ns_key tenant after)) (sym (name_in_eq k p))
        ∙ h in
      cc (bytes_lt_trans name after name back below, bytes_lt_irrefl name)

  pub below_prefix :
      (after k : Bytes)
      → bytes_lt k (ns_key tenant prefix) ≡ true
      → is_wanted tenant prefix after k ≡ true
      → ⊥
  below_prefix after k h w =
      let name = name_in tenant prefix k in
      let (r, below) =
        and_true (has_prefix k (ns_key tenant []) && has_prefix name prefix) (bytes_lt after name)
          w in
      cc (bytes_lt-has_prefix k (ns_key tenant prefix) (has_prefix-ns_key k ∙ r), h)

  pub selected-from_key :
      (after from : Bytes) (m : Assoc Bytes)
      → ((k : Bytes) → bytes_lt k from ≡ true → is_wanted tenant prefix after k ≡ true → ⊥)
      → selected tenant prefix after (from_key from m) ≡ selected tenant prefix after m
  unfolding from_key
  selected-from_key after from [] h = refl
  selected-from_key after from ((k, id) ∷ m) h =
      let rest = selected-from_key after from m h in
      if_intro (λ l. selected tenant prefix after l ≡ selected tenant prefix after ((k, id) ∷ m))
        (bytes_lt k from)
        (λ e. elim (Bool-cases (is_wanted tenant prefix after k)) [
          | inl w ↦ absurd (h k e w)
          | inr w ↦
              rest
              ∙ sym
                  (if_false (is_wanted tenant prefix after k) _ (selected tenant prefix after m) w)
        ])
        (λ _. refl)

  -- Past a key that lies above the prefix without having it, nothing is wanted.
  pub selected-past :
      (after k : Bytes) (m : Assoc Bytes)
      → bytes_lt k (ns_key tenant prefix) ≡ false
      → has_prefix k (ns_key tenant prefix) ≡ false
      → Above k m
      → selected tenant prefix after m ≡ []
  selected-past after k [] low lacks a = refl
  selected-past after k ((j, id) ∷ m) low lacks a =
      let rest = selected-past after k m low lacks a.1 in
      elim (Bool-cases (has_prefix j (ns_key tenant prefix))) [
        | inl e ↦ cc (has_prefix_between k j (ns_key tenant prefix) low a.0 e, lacks)
        | inr e ↦
            let f = sym (has_prefix-ns_key j) ∙ e in
            if_false (is_wanted tenant prefix after j) _ (selected tenant prefix after m) (
              and_false
                (has_prefix j (ns_key tenant []) && has_prefix (name_in tenant prefix j) prefix)
                (bytes_lt after (name_in tenant prefix j)) f)
            ∙ rest
      ]

  -- What comes after a name in a list of names.
  abbrev pub beyond : Bytes → Assoc Bytes → Assoc Bytes
  beyond after [] = []
  beyond after ((x, id) ∷ l) =
      let rest = beyond after l in if bytes_lt after x then (x, id) ∷ rest else rest

  beyond_step :
      (n x id : Bytes) (l m : Assoc Bytes) (b a : Bool)
      → (bytes_lt n x ≡ true → a ≡ true)
      → l ≡ beyond n m
      → (if b && bytes_lt n x then (x, id) ∷ l else l)
        ≡ beyond n (if b && a then (x, id) ∷ m else m)
  beyond_step n x id l m false a h e = e
  beyond_step n x id l m true true h e = ap (λ r. if bytes_lt n x then (x, id) ∷ r else r) e
  beyond_step n x id l m true false h e = elim (Bool-cases (bytes_lt n x)) [
    | inl f ↦ cc (h f)
    | inr f ↦ if_false (bytes_lt n x) ((x, id) ∷ l) l f ∙ e
  ]

  pub selected-Above :
      (after : Bytes) (m : Assoc Bytes) → Above after (selected tenant prefix after m)
  selected-Above after [] = tt
  selected-Above after ((k, id) ∷ m) =
      let rest = selected-Above after m in
      if_intro (Above after) (is_wanted tenant prefix after k)
        (λ w.
          let (r, below) =
            and_true
              (has_prefix k (ns_key tenant []) && has_prefix (name_in tenant prefix k) prefix)
              (bytes_lt after (name_in tenant prefix k)) w in
          (below, rest))
        (λ _. rest)

  in_tenant :
      (after k : Bytes)
      → is_wanted tenant prefix after k ≡ true
      → k ≡ ns_key tenant (name_in tenant prefix k)
  in_tenant after k w =
      let name = name_in tenant prefix k in
      let (r, below) =
        and_true (has_prefix k (ns_key tenant []) && has_prefix name prefix) (bytes_lt after name)
          w in
      let (p, q) = and_true (has_prefix k (ns_key tenant [])) (has_prefix name prefix) r in
      name_in_eq k p

  selected-Above-key :
      (after k : Bytes) (m : Assoc Bytes)
      → is_wanted tenant prefix after k ≡ true
      → Above k m
      → Above (name_in tenant prefix k) (selected tenant prefix after m)
  selected-Above-key after k [] w a = tt
  selected-Above-key after k ((j, id) ∷ m) w a =
      let rest = selected-Above-key after k m w a.1 in
      if_intro (Above (name_in tenant prefix k)) (is_wanted tenant prefix after j)
        (λ v. (
          sym (bytes_lt-ns_key (name_in tenant prefix k) (name_in tenant prefix j))
              ∙ ap (λ i. bytes_lt i (ns_key tenant (name_in tenant prefix j)))
                  (sym (in_tenant after k w))
              ∙ ap (bytes_lt k) (sym (in_tenant after j v))
              ∙ a.0,
          rest,
        ))
        (λ _. rest)

  pub selected-IsAscending :
      (after : Bytes) (m : Assoc Bytes)
      → IsAscending m
      → IsAscending (selected tenant prefix after m)
  selected-IsAscending after [] h = tt
  selected-IsAscending after ((k, id) ∷ m) h =
      let rest = selected-IsAscending after m h.1 in
      if_intro IsAscending (is_wanted tenant prefix after k)
        (λ w. (selected-Above-key after k m w h.0, rest)) (λ _. rest)

  -- The names after a later one.
  pub selected-beyond :
      (after n : Bytes) (m : Assoc Bytes)
      → bytes_lt after n ≡ true
      → selected tenant prefix n m ≡ beyond n (selected tenant prefix after m)
  selected-beyond after n [] h = refl
  selected-beyond after n ((k, id) ∷ m) h =
      let name = name_in tenant prefix k in
      beyond_step n name id (selected tenant prefix n m) (selected tenant prefix after m)
        (has_prefix k (ns_key tenant []) && has_prefix name prefix) (bytes_lt after name)
        (bytes_lt_trans after n name h) (selected-beyond after n m h)
