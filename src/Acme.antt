-- ===== src/Acme.antt =====
-- The ACME server's own state and operations: internal/acme.
pub mod Types
pub mod Nonce
pub mod Storage
pub mod Account
pub mod Order
pub mod Settings
pub mod Jws
pub mod Challenge
pub mod Sign
