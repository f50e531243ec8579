-- ===== src/Store/Policy.antt =====
-- `Policy`, `DefaultPolicy` and `policyFor` of internal/store/store.go, and `Held` of
-- internal/store/upload.go.
use xsync.Prelude.{
  ℕ, Bool, true, false, ◌||◌, Option, none, some, List, [], ◌∷◌, ◌==◌, if◌then◌else◌,
}
use xsync.Prelude.Bytes.{Bytes, codes}
use xsync.Store.Glob.{path_match, path_base}

pub record Policy : Type 0 where
  pub supersede : Bool
  pub hold_patterns : List Bytes
  pub publish_delay : ℕ
  pub max_attempts : ℕ
  pub max_stored_bytes : ℕ

abbrev pub default_policy : Policy
default_policy = record {
  supersede = true;
  hold_patterns = codes "*.filepart" ∷ codes "*.partial" ∷ codes "*.tmp" ∷ [];
  publish_delay = 0;
  max_attempts = 10;
  max_stored_bytes = 0;
}

-- s.policy may be nil; a limit that is not positive is the default one.
unfoldable pub policy_for : Option (Bytes → Policy) → Bytes → Policy
policy_for none tenant = default_policy
policy_for (some policy) tenant =
    let p = policy tenant in
    if p.max_attempts == 0 then record p { max_attempts = default_policy.max_attempts } else p

unfoldable pub held : List Bytes → Bytes → Bool
held [] p = false
held (pattern ∷ patterns) p = path_match pattern (path_base p) || held patterns p
