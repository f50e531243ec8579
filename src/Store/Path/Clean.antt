-- ===== src/Store/Path/Clean.antt =====
-- Paths after `CleanPath`, and the prefixes of `pathHasPrefix`, of internal/store/path.go.
use xsync.Prelude.{
  ◌≡◌, ◌↔◌, ◌⊎◌, refl, sym, ◌∙◌, ap, true, false, [], ◌∷◌, ◌++◌, if_intro, map, arith, inl, inr,
  Bool-cases,
}
use xsync.Prelude.Bytes.{Bytes, bytes_eq, bytes_eq_iff, has_prefix, has_prefix-append}
use mathlib.Core.List.{append_assoc}
use xsync.Store.Error.{ok}
use xsync.Store.Path.{
  slash, contains, to_slash, split, dot, dot_dot, has_part, clean_rooted, clean_path,
  path_has_prefix,
}

-- A relative path without empty parts, "." and ".."; the root is the empty text.
abbrev pub IsClean : Bytes → Type 0
IsClean p =
    (p ≡ [])
    ⊎ ((has_part dot_dot (split p) ≡ false)
        × (has_part dot (split p) ≡ false)
        × (has_part [] (split p) ≡ false))

-- Any name that `CleanPath` accepts becomes a clean path, and it accepts no name with a NUL or a
-- "..", in either spelling of the slash.
pub clean_path-IsClean :
    (name p : Bytes)
    → clean_path name ≡ ok p
    → IsClean p × (contains name 0 ≡ false) × (has_part dot_dot (split (map to_slash name)) ≡ false)
unfolding clean_path
clean_path-IsClean name p h = ground (arith, bytes_eq_iff (clean_rooted (map to_slash name)) [])

has_prefix_split : (s p : Bytes) → has_prefix s p ≡ true → (t : Bytes) × (s ≡ p ++ t)
unfolding has_prefix
has_prefix_split s [] h = (s, refl)
has_prefix_split [] (c ∷ p) h = cc (h)
has_prefix_split (x ∷ s) (c ∷ p) h =
    let more = has_prefix_split s p (ground arith) in
    let same : x ≡ c = ground arith in (more.0, ap (λ y. y ∷ s) same ∙ ap (λ r. c ∷ r) more.1)

-- The prefix itself, or a path below it.
abbrev pub IsUnder : Bytes → Bytes → Type 0
IsUnder name prefix =
    (prefix ≡ []) ⊎ (name ≡ prefix) ⊎ ((rest : Bytes) × (name ≡ prefix ++ (slash ∷ rest)))

has_prefix_below :
    (prefix rest : Bytes) → has_prefix (prefix ++ (slash ∷ rest)) (prefix ++ (slash ∷ [])) ≡ true
has_prefix_below prefix rest =
    ap (λ s. has_prefix s (prefix ++ (slash ∷ []))) (sym (append_assoc prefix (slash ∷ []) rest))
    ∙ has_prefix-append (prefix ++ (slash ∷ [])) rest

-- `pathHasPrefix` holds of a path exactly when the prefix is the root, the path itself, or a
-- directory above it: "ab" is not under "a".
pub path_has_prefix_iff :
    (name prefix : Bytes) → (path_has_prefix name prefix ≡ true) ↔ IsUnder name prefix
unfolding path_has_prefix
path_has_prefix_iff name prefix = (
  λ h. elim (Bool-cases (bytes_eq prefix [])) [
    | inl e ↦ inl ((bytes_eq_iff prefix []).0 e)
    | inr e ↦ elim (Bool-cases (bytes_eq name prefix)) [
      | inl f ↦ inr (inl ((bytes_eq_iff name prefix).0 f))
      | inr f ↦
          let more = has_prefix_split name (prefix ++ (slash ∷ [])) (ground arith) in
          inr (inr (more.0, more.1 ∙ append_assoc prefix (slash ∷ []) more.0))
    ]
  ],
  λ u. elim u [
    | inl e ↦ rw ((bytes_eq_iff prefix []).1 e) refl
    | inr (inl e) ↦
        if_intro (λ b. b ≡ true) (bytes_eq prefix []) (λ _. refl)
          (λ _. rw ((bytes_eq_iff name prefix).1 e) refl)
    | inr (inr (rest, e)) ↦
        let below : has_prefix name (prefix ++ (slash ∷ [])) ≡ true =
          ap (λ s. has_prefix s (prefix ++ (slash ∷ []))) e ∙ has_prefix_below prefix rest in
        ground arith
  ],
)
