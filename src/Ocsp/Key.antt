-- ===== src/Ocsp/Key.antt =====
-- internal/api/ocsp_handler.go: the key of a kept response.
use ad_pki_ca.Base.{ℕ, ◌≡◌, String, ◌<>◌, last_colon}
use ad_pki_ca.Hex.{to_hex}
use ad_pki_ca.Hex.Numerals.{to_hex_injective, has_colon-to_hex}

-- buildCacheKey
unfoldable pub build_cache_key : String → String → String
build_cache_key serial issuer_id = issuer_id <> ":" <> serial

-- Two responses have the same key only if they are for the same serial number and the same issuer,
-- whatever characters the names of the issuers have.
pub build_cache_key_injective :
    (m n : ℕ) (issuer issuer' : String)
    → build_cache_key (to_hex m) issuer ≡ build_cache_key (to_hex n) issuer'
    → (m ≡ n) × (issuer ≡ issuer')
unfolding build_cache_key
build_cache_key_injective m n issuer issuer' h =
    let parts =
      last_colon issuer issuer' (to_hex m) (to_hex n) (has_colon-to_hex m) (has_colon-to_hex n) h in
    (to_hex_injective m n parts.1, parts.0)
