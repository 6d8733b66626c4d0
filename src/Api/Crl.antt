-- ===== src/Api/Crl.antt =====
-- internal/worker/crl-worker.go and internal/api/crl_handler.go: one round of the worker that writes
-- the lists of revoked certificates, and the handler that serves them.
pub mod Round
pub mod Served
use ad_pki_ca.Config.{base_path}
use ad_pki_ca.Base.{
  Option, none, some, List, [], ◌∷◌, String, ◌==◌, ◌<>◌, if◌then◌else◌, strip_prefix, strip_suffix,
}
use ad_pki_ca.Env.{Env}
use ad_pki_ca.Files.{FilePath, text, join, write_file}
use ad_pki_ca.World.{World, Exec, Outcome, ok, err, pure, lift, or_else, on_write, ◌>>=◌, ◌>>◌}
use ad_pki_ca.Ca.Loader.{Ca, read_bytes}
use ad_pki_ca.Ca.Intermediates.{load_all_intermediates}
use ad_pki_ca.Ca.Revocation.{backend_url, fetch_revoked_certificates, generate_crl}
use ad_pki_ca.Api.Http.{Request, Response, http_error, plain_response, merge}

-- `strings.TrimPrefix` and `strings.TrimSuffix`
abbrev trim_prefix : String → String → String
trim_prefix p s = elim (strip_prefix p s) [ none ↦ s | some rest ↦ rest ]

abbrev trim_suffix : String → String → String
trim_suffix p s = elim (strip_suffix p s) [ none ↦ s | some rest ↦ rest ]

module _ (env : Env) where
  abbrev pub crl_path : String → FilePath
  crl_path id = join (base_path env) (("crl_" <> id <> ".pem") ∷ [])

  abbrev pub crl_revoked_url : String → String
  crl_revoked_url id = backend_url env <> "/api/internal/crl/revoked?intermediate=" <> id

  -- The new list of one intermediate, if no step fails.
  unfoldable pub update_crl : String → Exec String (Unit {0})
  update_crl id = do
    revoked ← fetch_revoked_certificates env (crl_revoked_url id)
    crl ← generate_crl env id revoked
    on_write (crl_path id) (text crl) "write"

  -- An intermediate whose list cannot be made is passed over.
  unfoldable pub update_crls : List (Ca env) → World → World
  update_crls [] w = w
  update_crls (ca ∷ cas) w = update_crls cas (update_crl ca.id w).1

  -- One turn of StartCRLWorker's loop.
  unfoldable pub crl_round : World → World
  unfolding update_crls
  crl_round w = elim (load_all_intermediates env w).0 [ err _ ↦ w | ok cas ↦ update_crls cas w ]

  abbrev pub crl_id : Request → String
  crl_id r = trim_suffix ".pem" (trim_prefix "/crl/" r.path)

  -- CRLHandler
  unfoldable pub crl_handler : Request → World → Response × World
  crl_handler r w =
      if crl_id r == ""
      then (http_error "missing CRL id" 400, w)
      else elim (read_bytes env (crl_path (crl_id r)) w).0 [
        | err _ ↦ (http_error "CRL not found" 404, w)
        | ok pem ↦ (plain_response 200 "application/pkix-crl" pem, w)
      ]
