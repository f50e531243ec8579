-- ===== src/Model.antt =====
-- internal/model/model.go. Times are instants (Store/Keys.antt), the zero time is 0; sizes are
-- nonnegative `int64` values.
use xsync.Prelude.{ℕ, Bool}
use xsync.Prelude.Bytes.{Bytes}
use xsync.Prelude.Assoc.{Assoc}

pub data State : Type 0 where
  uploading finalizing ready leased delete_pending interrupted failed held parked : State

pub record Upload : Type 0 where
  pub id : Bytes
  pub tenant : Bytes
  pub path : Bytes
  pub protocol : Bytes
  pub staging_path : Bytes
  pub state : State
  pub created_at : ℕ
  pub updated_at : ℕ
  pub error : Bytes

pub record ObjectVersion : Type 0 where
  pub id : Bytes
  pub tenant : Bytes
  pub path : Bytes
  pub blob_path : Bytes
  pub size : ℕ
  pub sha256 : Bytes
  pub etag : Bytes
  pub metadata : Assoc Bytes
  pub tags : Assoc Bytes
  pub version : ℕ
  pub state : State
  pub queue_seq : ℕ
  pub queue_key : Bytes
  pub visible_at : ℕ
  pub created_at : ℕ
  pub updated_at : ℕ
  pub lease_id : Bytes
  pub lease_client : Bytes
  pub lease_until : ℕ
  pub attempts : ℕ
  pub last_error : Bytes
  pub parked_at : ℕ
  pub retracted : Bool

pub record Claim : Type 0 where
  pub lease_id : Bytes
  pub object_id : Bytes
  pub tenant : Bytes
  pub client_id : Bytes
  pub path : Bytes
  pub size : ℕ
  pub sha256 : Bytes
  pub version : ℕ
  pub attempts : ℕ
  pub lease_until : ℕ
  pub lease_seconds : ℕ

pub record Tombstone : Type 0 where
  pub object_id : Bytes
  pub tenant : Bytes
  pub reason : Bytes
  pub deleted_at : ℕ

pub record Entry : Type 0 where
  pub path : Bytes
  pub directory : Bool
  pub updated_at : ℕ
