-- ===== src/Api.antt =====
-- The HTTP handlers: internal/api.
pub mod Http
pub mod Signed
pub mod Directory
pub mod Account
pub mod Order
pub mod Challenge
pub mod Finalize
pub mod Revoke
pub mod Access
pub mod Ocsp
pub mod Crl
pub mod Sign
pub mod Import
pub mod Ntp
pub mod Tsa
pub mod System
