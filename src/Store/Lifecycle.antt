-- ===== src/Store/Lifecycle.antt =====
-- The life of an object: where `publish` of internal/store/upload.go puts it, and, in the hands of
-- the downloaders (internal/store/delivery.go), what a claim, a renewal, a release and a commit do,
-- branch by branch.
pub mod Publication
pub mod Commit
pub mod Claiming
pub mod Release
pub mod Renewal
pub mod Expiry
