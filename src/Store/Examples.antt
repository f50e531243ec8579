-- ===== src/Store/Examples.antt =====
-- A day of one file in internal/store, on buckets in memory: it is published and claimed.
mod Properties
use xsync.Prelude.{
  ◌*◌, ◌≡◌, ◌≤◌, ◌↔◌, refl, true, false, Option, some, none, List, [], ◌∷◌, length, All, arith,
}
use xsync.Prelude.Bytes.{Bytes, codes, Lacks, bytes_eq}
use xsync.Prelude.Assoc.{lookup, insert, from_key}
use xsync.Bolt.Memory.{Bucket, memory}
use xsync.Model.{State, Upload, ObjectVersion, Claim}
use xsync.Store.Error.{Error, ok, err}
use xsync.Store.Ensures.{Ensures}
use xsync.Store.Keys.{nul}
use xsync.Store.Tx.{Tx, no_delta}
use xsync.Store.Glob.{path_match, path_base}
use xsync.Store.Policy.{Policy, default_policy, held}
use xsync.Store.Delivery.{ReleaseOptions, equal_fold, after_delivery, release_tx}
use xsync.Store.Outcome.{deleted, already_deleted, refused, commit_verdict, commit_tx}
use xsync.Store.Lease.{second, extension, renew_tx}
use xsync.Store.Claiming.{claim_of, still_ready, take_lease, claim_all, seek_text, find_candidates}
use xsync.Store.Claiming.Search.{IsHit, IsInOrder, walk, find_candidates-IsInOrder}
use xsync.Store.Namespace.{check_file_path, replace_path}
use xsync.Store.Publish.{publish_tx}
use xsync.Store.Rename.{rename_tx}
use xsync.Store.Maintain.{has_lapsed, lease_expired, expire_one, expire_all, due_leases, check}
use xsync.Store.Index.{IsConsistent}
use xsync.Store.Index.Operations.{Consistent}
use xsync.Store.Index.Paths.{publish_tx-IsConsistent}
use xsync.Store.Index.Renaming.{rename_tx-IsConsistent}
use xsync.Store.Index.Expiry.{expire_all-IsConsistent}
use xsync.Store.Index.Checking.{check-IsConsistent}
use xsync.Store.Lifecycle.Claiming.{IsGrant, claim_all-IsGrant}
use xsync.Store.Lifecycle.Commit.{commit_tx-twice, commit_tx-unchanged}
use xsync.Store.Lifecycle.Release.{fate, Shows, after_delivery-Shows, release_tx-once}
use xsync.Store.Lifecycle.Renewal.{extension-claim_of, IsAlive, IsRenewed, renew_tx-IsRenewed}
use xsync.Store.Run.{
  Operation, publish, claim, Store, empty_store, step, IsClean, Reach, start, next,
}
use xsync.Store.Run.Consistency.{Reach-IsConsistent}

abbrev pub policy : Bytes → Policy
policy tenant = default_policy

abbrev pub upload : Upload
upload = record {
  id = codes "u1";
  tenant = codes "t";
  path = codes "a";
  protocol = codes "sftp";
  staging_path = codes "s";
  state = State.finalizing;
  created_at = 5;
  updated_at = 5;
  error = [];
}

abbrev pub publish_it : Operation
publish_it = publish upload (codes "blob") (codes "d1") 3 none

abbrev pub claim_it : Operation
claim_it =
    claim (codes "t") (codes "c") 100 (record { seq = 1; id = codes "u1" } ∷ []) (codes "L" ∷ [])

abbrev pub published : Store
published = step policy 10 publish_it empty_store

abbrev pub claimed : Store
claimed = step policy 20 claim_it published

pub clean_id : Lacks nul (codes "u1")
clean_id = ((λ e. absurd (omega arith)), ((λ e. absurd (omega arith)), tt))

pub published-Reach : Reach policy published
unfolding IsClean
published-Reach = next 10 publish_it empty_store clean_id start

pub claimed-Reach : Reach policy claimed
unfolding IsClean
claimed-Reach = next 20 claim_it published tt published-Reach

open memory use {get, entries}

abbrev pub u1 : Bytes
u1 = codes "u1"

abbrev pub state_of : Option ObjectVersion → Option State
state_of none = none
state_of (some o) = some o.state

pub published_ready : state_of (get published.db.objects u1) ≡ some State.ready
unfolding step lookup publish_tx empty_store check_file_path from_key held path_match path_base
    replace_path insert bytes_eq
published_ready = refl

pub claimed_leased : state_of (get claimed.db.objects u1) ≡ some State.leased
unfolding step lookup claim_all still_ready publish_tx empty_store check_file_path from_key held
    path_match path_base replace_path insert bytes_eq take_lease
claimed_leased = refl

abbrev pub published_tx : Tx Bucket
published_tx = record { db = published.db; delta = no_delta }

abbrev pub claimed_tx : Tx Bucket
claimed_tx = record { db = claimed.db; delta = no_delta }

pub published-Consistent : Consistent published_tx
published-Consistent = Reach-IsConsistent policy published published-Reach

pub claimed-Consistent : Consistent claimed_tx
claimed-Consistent = Reach-IsConsistent policy claimed claimed-Reach

-- The object and the claim while the lease lasts.
abbrev pub leased_object : ObjectVersion
leased_object = record {
  id = u1;
  tenant = codes "t";
  path = codes "a";
  blob_path = codes "blob";
  size = 3;
  sha256 = codes "d1";
  etag = codes "d1";
  metadata = [];
  tags = [];
  version = 1;
  state = State.leased;
  queue_seq = 0;
  queue_key = [];
  visible_at = 10;
  created_at = 10;
  updated_at = 20;
  lease_id = codes "L";
  lease_client = codes "c";
  lease_until = 120;
  attempts = 1;
  last_error = [];
  parked_at = 0;
  retracted = false;
}

abbrev pub the_claim : Claim
the_claim = record {
  lease_id = codes "L";
  object_id = u1;
  tenant = codes "t";
  client_id = codes "c";
  path = codes "a";
  size = 3;
  sha256 = codes "d1";
  version = 1;
  attempts = 1;
  lease_until = 120;
  lease_seconds = 0;
}

pub claimed_object : get claimed.db.objects u1 ≡ some leased_object
unfolding step lookup claim_all still_ready publish_tx empty_store check_file_path from_key held
    path_match path_base replace_path insert bytes_eq take_lease
claimed_object = refl

pub claimed_claim : get claimed.db.claims (codes "L") ≡ some the_claim
unfolding step lookup claim_all still_ready publish_tx empty_store check_file_path from_key held
    path_match path_base replace_path insert bytes_eq take_lease
claimed_claim = refl
