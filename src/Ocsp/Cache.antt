-- ===== src/Ocsp/Cache.antt =====
-- internal/api/ocsp_handler.go: a kept response.
use ad_pki_ca.Base.{ℕ, String}

pub record CachedResponse : Type 0 where
  pub content : String
  pub expires_at : ℕ
