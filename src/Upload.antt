-- ===== src/Upload.antt =====
-- internal/store/upload.go: what an upload has written, and what it has hashed of it.
pub mod Coverage
pub mod Hasher
pub mod File
pub mod Tracking
mod Examples
