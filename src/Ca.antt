-- ===== src/Ca.antt =====
-- The certification authority: internal/ca and internal/storage.
pub mod Loader
pub mod Intermediates
pub mod Revocation
pub mod Settings
pub mod Issued
pub mod Sign
pub mod Chain
pub mod Request
pub mod Validate
pub mod Stored
pub mod Tsa
