-- ===== src/Acme/Settings.antt =====
-- internal/acme/sign.go: where the backend is, and the settings that it has for ACME.
use ad_pki_ca.Base.{String, ◌==◌, ◌<>◌, if◌then◌else◌}
use ad_pki_ca.Env.{Env, Settings}
use ad_pki_ca.World.{Exec}
use ad_pki_ca.Ca.Settings.{fetch_settings}

module _ (env : Env) where
  -- backendURL
  unfoldable pub backend_url : String
  backend_url = if env.backend_variable == "" then "http://127.0.0.1:8000" else env.backend_variable

  -- fetchACMESettings
  unfoldable pub fetch_acme_settings : Exec String Settings
  unfolding fetch_settings backend_url
  fetch_acme_settings = fetch_settings env (backend_url <> "/api/internal/acme-settings")
