-- ===== src/Netguard.antt =====
-- internal/netguard
pub mod Listener
pub mod AuthLimiter
