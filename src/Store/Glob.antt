-- ===== src/Store/Glob.antt =====
-- path.Match and path.Base of Go's standard library, on ASCII names: what `Held` of
-- internal/store/upload.go tests temporary names with.
use xsync.Prelude.{
  ℕ, zero, suc, Bool, true, false, not, ◌&&◌, ◌||◌, Option, none, some, List, [], ◌∷◌, leb, ◌==◌,
  if◌then◌else◌, length,
}
use xsync.Prelude.Bytes.{Bytes, cut_last}

-- One element of a pattern; a class has the ranges between its brackets.
pub data Item : Type 0 where
  star : Item
  any_byte : Item
  literal : ℕ → Item
  class : Bool → List (ℕ × ℕ) → Item

-- getEsc: a possibly escaped byte of a class, which must not be its last text.
get_esc : Bytes → Option (ℕ × Bytes)
get_esc [] = none
get_esc (c ∷ []) = none
get_esc (c ∷ d ∷ rest) =
    if c == b'-' || c == b']'
    then none
    else if c == b'\\'
    then elim rest [ [] ↦ none | e ∷ more ↦ some (d, e ∷ more) ]
    else some (c, d ∷ rest)

-- The end of a range that begins at `lo`.
range_end : ℕ → Bytes → Option (ℕ × Bytes)
unfolding get_esc
range_end lo [] = some (lo, [])
range_end lo (c ∷ s) = if c == b'-' then get_esc s else some (lo, c ∷ s)

-- One range of a class.
class_range : Bytes → Option (ℕ × ℕ × Bytes)
unfolding get_esc range_end
class_range s = elim (get_esc s) [
  | none ↦ none
  | some (lo, rest) ↦ elim (range_end lo rest) [
    | none ↦ none
    | some (hi, more) ↦ some (lo, hi, more)
  ]
]

-- The ranges up to the closing bracket, of which there must be one at least.
class_ranges : ℕ → List (ℕ × ℕ) → Bytes → Option (List (ℕ × ℕ) × Bytes)
unfolding class_range
class_ranges zero acc s = none
class_ranges (suc f) acc [] = none
class_ranges (suc f) acc (c ∷ s) =
    let next : Option (List (ℕ × ℕ) × Bytes) = elim (class_range (c ∷ s)) [
      | none ↦ none
      | some (lo, hi, rest) ↦ class_ranges f ((lo, hi) ∷ acc) rest
    ] in
    elim acc [ [] ↦ next | r ∷ rs ↦ if c == b']' then some (r ∷ rs, s) else next ]

class_body : ℕ → Bytes → Option (Item × Bytes)
unfolding class_ranges
class_body f [] = none
class_body f (c ∷ s) =
    let negated = c == b'^' in
    elim (class_ranges f [] (if negated then s else c ∷ s)) [
      | none ↦ none
      | some (ranges, rest) ↦ some (class negated ranges, rest)
    ]

item : ℕ → Bytes → Option (Item × Bytes)
unfolding class_body
item f [] = none
item f (c ∷ s) =
    if c == b'*'
    then some (star, s)
    else if c == b'?'
    then some (any_byte, s)
    else if c == b'['
    then class_body f s
    else if c == b'\\'
    then elim s [ [] ↦ none | d ∷ rest ↦ some (literal d, rest) ]
    else some (literal c, s)

-- `none` is ErrBadPattern. Each item takes a byte at least, so the length of the pattern is fuel
-- enough.
items : ℕ → Bytes → Option (List Item)
unfolding item
items f [] = some []
items zero (c ∷ s) = none
items (suc f) (c ∷ s) = elim (item f (c ∷ s)) [
  | none ↦ none
  | some (i, rest) ↦ elim (items f rest) [ none ↦ none | some is ↦ some (i ∷ is) ]
]

in_ranges : List (ℕ × ℕ) → ℕ → Bool
in_ranges [] c = false
in_ranges ((lo, hi) ∷ rs) c = (leb lo c && leb c hi) || in_ranges rs c

accepts : Item → ℕ → Bool
unfolding in_ranges
accepts star c = false
accepts any_byte c = not (c == b'/')
accepts (literal d) c = d == c
accepts (class negated ranges) c = if negated then not (in_ranges ranges c) else in_ranges ranges c

-- A star, followed by `rest`, takes any number of bytes but no slash.
star_matches : (Bytes → Bool) → Bytes → Bool
star_matches rest [] = rest []
star_matches rest (c ∷ s) = rest (c ∷ s) || (not (c == b'/') && star_matches rest s)

matches : List Item → Bytes → Bool
unfolding accepts star_matches
matches [] [] = true
matches [] (c ∷ s) = false
matches (star ∷ is) s = star_matches (matches is) s
matches (i ∷ is) [] = false
matches (i ∷ is) (c ∷ s) = accepts i c && matches is s

-- ok of path.Match(pattern, name)
unfoldable pub path_match : Bytes → Bytes → Bool
unfolding items matches
path_match pattern name = elim (items (length pattern) pattern) [
  | none ↦ false
  | some is ↦ matches is name
]

trim_slashes : Bytes → Bytes
trim_slashes [] = []
trim_slashes (c ∷ s) =
    let rest = trim_slashes s in
    elim rest [ [] ↦ if c == b'/' then [] else c ∷ [] | d ∷ ds ↦ c ∷ d ∷ ds ]

-- path.Base
unfoldable pub path_base : Bytes → Bytes
unfolding trim_slashes cut_last
path_base [] = b'.' ∷ []
path_base (c ∷ s) = elim (trim_slashes (c ∷ s)) [
  | [] ↦ b'/' ∷ []
  | d ∷ ds ↦ elim (cut_last b'/' (d ∷ ds)) [ none ↦ d ∷ ds | some (dir, base) ↦ base ]
]
