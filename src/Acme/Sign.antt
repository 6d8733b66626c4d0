-- ===== src/Acme/Sign.antt =====
-- internal/acme/sign.go: issuing the certificate of an order. The goroutine `notifyLaravel` is run at
-- once: what it posts is kept in the state's `notices`, and nobody reads the answer.
pub mod Leaf
pub mod Notice
use ad_pki_ca.Config.{base_path}
use ad_pki_ca.Base.{pos}
use ad_pki_ca.Base.{ℕ, ◌+◌, not, ◌&&◌, none, some, List, [], ◌∷◌, String, ◌==◌, ◌<>◌, if◌then◌else◌}
use ad_pki_ca.Env.{Env, Settings}
use ad_pki_ca.Files.{Entry, FilePath, join, read_dir}
use ad_pki_ca.World.{World, Exec, ok, err, pure, reads, lift, or_else, ◌>>=◌, ◌>>◌}
use ad_pki_ca.Ca.Sign.{days_or, sign_csr}
use ad_pki_ca.Ca.Issued.{store_certificate}
use ad_pki_ca.Ca.Chain.{build_chain}
use ad_pki_ca.Json.{Json, null, obj, str, arr, stamp, field, end, encode_items}
use ad_pki_ca.Ca.Tsa.{path_text}
use ad_pki_ca.Acme.Settings.{backend_url, fetch_acme_settings}
use ad_pki_ca.Acme.Types.{Order}
use ad_pki_ca.Acme.Order.{new_order_id}
use ad_pki_ca.Acme.Storage.{acme_path, ensure_dir, write_string_file, read_string_file}

-- The last directory but "active", "" if there is none.
unfoldable pub latest_of : String → List Entry → String
latest_of latest [] = latest
latest_of latest (e ∷ es) =
    latest_of (if e.is_dir && not (e.name == "active") then e.name else latest) es

abbrev pub no_settings : Settings
no_settings = record {
  crl_url = "";
  ocsp_url = "";
  intermediate_id = "";
  validity_days = 0;
  dns_servers = [];
}

module _ (env : Env) where
  open env use {Csr}

  -- The target of the link `intermediates/active`, or else the last directory.
  unfoldable pub active_intermediate_id : World → String
  unfolding latest_of
  active_intermediate_id w = elim env.active_link [
    | some target ↦ target
    | none ↦ elim (read_dir (join (base_path env) ("intermediates" ∷ [])) w.fs) [
      | none ↦ ""
      | some entries ↦ latest_of "" entries
    ]
  ]

  abbrev fetched : World → Settings
  fetched w = elim (fetch_acme_settings env w).0 [ err _ ↦ no_settings | ok s ↦ s ]

  -- The settings that an ACME certificate is issued with.
  unfoldable pub effective_settings : World → Settings
  unfolding active_intermediate_id fetch_acme_settings
  effective_settings w =
      let s = fetched w in
      record s {
        intermediate_id =
            if s.intermediate_id == "" then active_intermediate_id w else s.intermediate_id;
        validity_days = days_or 90 s.validity_days;
      }

  abbrev first_or : String → List String → String
  first_or cn [] = cn
  first_or cn (d ∷ ds) = if cn == "" then d else cn

  -- A nil slice is null.
  abbrev names_json : List String → Json
  names_json [] = null
  names_json (d ∷ ds) = arr (encode_items str (d ∷ ds))

  -- What `notifyLaravel` posts.
  unfoldable pub notice : Csr → String → FilePath → ℕ → String → ℕ → Json
  notice csr serial crt_path days account_id now = obj (
      field "common_name" (str (first_or (env.csr_common_name csr) (env.csr_dns_names csr))) (
        field "san" (names_json (env.csr_dns_names csr)) (
          field "serial_number" (str serial) (
            field "valid_from" (stamp now) (
              field "valid_to" (stamp (env.add_date now (pos days))) (
                field "crt_path" (str (path_text crt_path))
                  (field "acme_account_id" (str account_id) end)))))))

  -- notifyLaravel: the post is tried once, and nothing is done about what comes of it.
  unfoldable pub notify_laravel : Csr → String → FilePath → ℕ → String → Exec String (Unit {0})
  unfolding notice
  notify_laravel csr serial crt_path days account_id w =
      let url : String = backend_url env <> "/api/internal/acme-certificate" in
      let said : Json = notice csr serial crt_path days account_id w.now in
      (ok tt, record w { notices = (url, said, env.post_json w.now url said) ∷ w.notices })

  unfoldable pub sign_order_csr : Csr → Order → Exec String String
  unfolding effective_settings
  sign_order_csr csr order = do
    settings ← reads effective_settings
    (cert_pem, serial) ←
        or_else
          (sign_csr env csr settings.intermediate_id settings.crl_url [] settings.ocsp_url "tls"
            settings.validity_days)
          (λ e. "signing failed: " <> e)
    paths ←
        or_else
          (store_certificate env (first_or (env.csr_common_name csr) (env.csr_dns_names csr)) serial
            cert_pem "" none none)
          (λ e. "storage failed: " <> e)
    notify_laravel csr serial paths.crt_path settings.validity_days order.account_id
    or_else (build_chain env cert_pem settings.intermediate_id) (λ e. "chain build failed: " <> e)

  unfoldable pub save_certificate : String → Exec String String
  save_certificate cert_pem = do
    id ← new_order_id env
    ensure_dir env (acme_path env ("certs" ∷ []))
    write_string_file env (acme_path env ("certs" ∷ (id <> ".pem") ∷ [])) cert_pem
    pure id

  unfoldable pub load_certificate : String → Exec String String
  load_certificate id w =
      lift (read_string_file env (acme_path env ("certs" ∷ (id <> ".pem") ∷ [])) w)
        ("certificate not found: " <> id) w
