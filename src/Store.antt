-- ===== src/Store.antt =====
-- internal/store
pub mod Decimal
pub mod Keys
pub mod Error
pub mod Ensures
pub mod Tx
pub mod Glob
pub mod Policy
pub mod Queue
pub mod Delete
pub mod Delivery
pub mod Outcome
pub mod Lease
pub mod Path
pub mod Claiming
pub mod Namespace
pub mod Publish
pub mod Rename
pub mod Listing
pub mod Maintain
pub mod Recover
pub mod Counters
pub mod Calls
pub mod Rebuild
pub mod Run
pub mod Handle
pub mod Lifecycle
pub mod Index
pub mod Tests
mod Examples
