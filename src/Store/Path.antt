-- ===== src/Store/Path.antt =====
-- internal/store/path.go, and the parts of Go's strings and path packages that it calls.
pub mod Clean
use xsync.Prelude.{
  ℕ, Bool, true, false, not, ◌||◌, ◌&&◌, List, [], ◌∷◌, ◌++◌, ◌==◌, if◌then◌else◌, map,
}
use xsync.Prelude.Bytes.{Bytes, bytes_eq, has_prefix}
use xsync.Store.Error.{Error, Result, ok, err, guard, ◌>>=◌, ◌>>◌}

abbrev pub slash : ℕ
slash = b'/'

-- strings.ContainsRune
unfoldable pub contains : Bytes → ℕ → Bool
contains [] c = false
contains (x ∷ s) c = (x == c) || contains s c

-- strings.ReplaceAll(s, "\\", "/")
abbrev pub to_slash : ℕ → ℕ
to_slash c = if c == b'\\' then slash else c

-- strings.Split(s, "/"): one part more than there are slashes.
unfoldable pub split : Bytes → List Bytes
split [] = [] ∷ []
split (c ∷ s) =
    let rest = split s in
    if c == slash
    then [] ∷ rest
    else elim rest [ [] ↦ (c ∷ []) ∷ [] | part ∷ parts ↦ (c ∷ part) ∷ parts ]

abbrev pub dot : Bytes
dot = b'.' ∷ []

abbrev pub dot_dot : Bytes
dot_dot = b'.' ∷ b'.' ∷ []

unfoldable pub has_part : Bytes → List Bytes → Bool
has_part p [] = false
has_part p (x ∷ xs) = bytes_eq x p || has_part p xs

-- The parts that path.Clean keeps of a rooted path, last one first: no empty one, no ".", and each
-- ".." takes back the part before it.
unfoldable pub clean_parts : List Bytes → List Bytes → List Bytes
clean_parts kept [] = kept
clean_parts kept (x ∷ xs) =
    clean_parts
      (if bytes_eq x [] || bytes_eq x dot
        then kept
        else if bytes_eq x dot_dot
        then elim kept [ [] ↦ [] | k ∷ ks ↦ ks ]
        else x ∷ kept)
      xs

-- A path of parts that come last one first, with a slash before each but the first.
unfoldable pub join_back : List Bytes → Bytes
join_back [] = []
join_back (x ∷ []) = x
join_back (x ∷ y ∷ ys) = join_back (y ∷ ys) ++ (slash ∷ x)

-- strings.TrimPrefix(path.Clean("/" + name), "/"); the root is the empty text.
unfoldable pub clean_rooted : Bytes → Bytes
unfolding clean_parts join_back split
clean_rooted name = join_back (clean_parts [] (split name))

-- CleanPath
unfoldable pub clean_path : Bytes → Result Bytes
unfolding contains has_part clean_rooted split
clean_path name = do
  guard (not (contains name 0)) Error.other
  let slashed : Bytes = map to_slash name
  guard (not (has_part dot_dot (split slashed))) Error.other
  let clean : Bytes = clean_rooted slashed
  if bytes_eq clean [] then ok [] else do
    guard
        (not (
          has_part dot_dot (split clean)
          || has_part dot (split clean)
          || has_part [] (split clean)))
        Error.other
    ok clean

-- `name` is the prefix itself, or stands under it.
unfoldable pub path_has_prefix : Bytes → Bytes → Bool
path_has_prefix name prefix =
    if bytes_eq prefix []
    then true
    else bytes_eq name prefix || has_prefix name (prefix ++ (slash ∷ []))
