-- ===== src/Store/Tests.antt =====
-- Runs of the key and path functions of internal/store on texts that can be followed in the source.
use xsync.Prelude.{◌≡◌, ◌↔◌, refl, true, false, ltb, ◌==◌, if◌then◌else◌, map, arith}
use xsync.Prelude.Bytes.{Bytes, codes, bytes_eq, bytes_lt, Lacks}
use xsync.Store.Error.{Error, ok, err}
use xsync.Store.Glob.{path_match, path_base}
use xsync.Store.Path.{clean_path, path_has_prefix, contains, has_part, split, dot_dot, to_slash}
use xsync.Store.Path.Clean.{IsClean, IsUnder, clean_path-IsClean, path_has_prefix_iff}
use xsync.Store.Keys.{nul, queue_key, queue_seg_key, parse_tail_key, time_id_key, parse_time_id_key}
use xsync.Store.Keys.Parse.{
  parse_tail_key-queue_key, parse_tail_key-queue_seg_key, parse_time_id_key-time_id_key,
  ns_key_injective,
}
use xsync.Store.Keys.Order.{bytes_lt-queue_key}

abbrev t : Bytes
t = codes "t"

abbrev u : Bytes
u = codes "u"

Lacks-t : Lacks nul t
Lacks-t = ((λ e. absurd (omega arith)), tt)

Lacks-u : Lacks nul u
Lacks-u = ((λ e. absurd (omega arith)), tt)

parse_tail_key-queue_key_example : parse_tail_key (queue_key t 7 u) ≡ (7, u)
parse_tail_key-queue_key_example = parse_tail_key-queue_key t u 7 Lacks-u (omega arith)

parse_tail_key-queue_seg_key_example : parse_tail_key (queue_seg_key t (codes "a/b") 7 u) ≡ (7, u)
parse_tail_key-queue_seg_key_example =
    parse_tail_key-queue_seg_key t (codes "a/b") u 7 Lacks-u (omega arith)

parse_time_id_key-time_id_key_example : parse_time_id_key (time_id_key 12 u) ≡ (12, u)
parse_time_id_key-time_id_key_example = parse_time_id_key-time_id_key 12 u (omega arith)

ns_key_injective_example : (t ≡ t) × (u ≡ u)
ns_key_injective_example = ns_key_injective t t u u Lacks-t Lacks-t refl

bytes_lt-queue_key_example :
    bytes_lt (queue_key t 9 u) (queue_key t 10 t)
    ≡ (if ltb 9 10 then true else if 9 == 10 then bytes_lt u t else false)
bytes_lt-queue_key_example = bytes_lt-queue_key t 9 10 u t (omega arith) (omega arith)

path_has_prefix_iff_example :
    (path_has_prefix (codes "a/b") (codes "a") ≡ true) ↔ IsUnder (codes "a/b") (codes "a")
path_has_prefix_iff_example = path_has_prefix_iff (codes "a/b") (codes "a")

cleaned : clean_path (codes "//a\\./b/") ≡ ok (codes "a/b")
unfolding clean_path bytes_eq
cleaned = refl

clean_path-IsClean_example :
    IsClean (codes "a/b")
    × (contains (codes "//a\\./b/") 0 ≡ false)
    × (has_part dot_dot (split (map to_slash (codes "//a\\./b/"))) ≡ false)
clean_path-IsClean_example = clean_path-IsClean (codes "//a\\./b/") (codes "a/b") cleaned

traversal : clean_path (codes "a/../b") ≡ err Error.other
unfolding clean_path bytes_eq
traversal = refl

base_of_path : path_base (codes "a/b/video.tmp") ≡ codes "video.tmp"
unfolding path_base
base_of_path = refl

star_suffix : path_match (codes "*.tmp") (codes "video.tmp") ≡ true
unfolding path_match
star_suffix = refl

class_negated : path_match (codes "[^a-c]?") (codes "dz") ≡ true
unfolding path_match
class_negated = refl

bad_pattern : path_match (codes "[]a]") (codes "a") ≡ false
unfolding path_match
bad_pattern = refl
