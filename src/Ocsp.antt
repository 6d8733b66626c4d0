-- ===== src/Ocsp.antt =====
-- The OCSP responder's own state: internal/api/ocsp_handler.go.
pub mod Cache
pub mod Key
