-- ===== src/Ca/Sign.antt =====
-- internal/ca/sign.go: signing a request with an intermediate. Days are days of 24 hours; a number
-- of days below zero counts as 0, which the code treats alike.
pub mod Issue
use Prim.Native.Nat.{◌^◌}
use ad_pki_ca.Base.{pos}
use ad_pki_ca.Base.{
  ℕ, suc, ◌+◌, ◌*◌, Bool, true, false, Option, none, some, List, [], ◌∷◌, String, ◌==◌, eqb,
  if◌then◌else◌,
}
use ad_pki_ca.Hex.{to_hex}
use ad_pki_ca.Env.{Env, Template, CertType, server_auth, client_auth, code_signing}
use ad_pki_ca.World.{Exec, ok, err, pure, reads, lift, ◌>>=◌}
use ad_pki_ca.Ca.Loader.{
  read_bytes, intermediate_cert_path, intermediate_key_path, load_ca_from_pem,
}

-- The key usage beyond the digital signature (key encipherment), and the extended one.
unfoldable pub usage_of : String → Option (Bool × CertType)
usage_of cert_type =
    if cert_type == "tls"
    then some (true, server_auth)
    else if cert_type == "client"
    then some (false, client_auth)
    else if cert_type == "codesign"
    then some (false, code_signing)
    else none

abbrev pub days_or : ℕ → ℕ → ℕ
days_or fallback days = if eqb days 0 then fallback else days

module _ (env : Env) where
  open env use {Csr, Addr, Subject}

  -- `rand.Int(rand.Reader, big.NewInt(1<<62))`
  unfoldable pub random_serial : Exec String ℕ
  random_serial w = elim (env.random_int w.draws (2 ^ 62)) [
    | none ↦ (err "rand", record w { draws = suc w.draws })
    | some n ↦ (ok n, record w { draws = suc w.draws })
  ]

  unfoldable pub template :
      Csr
      → ℕ
      → ℕ
      → Bool × CertType
      → String
      → List Addr
      → String
      → String
      → ℕ
      → Template Subject Addr
  template csr serial now (encipherment, usage) crl_url ips ocsp_url cert_type days = record {
    serial_number = serial;
    subject = env.csr_subject csr;
    not_before = now;
    not_after = env.add_date now (pos (days_or 365 days));
    key_encipherment = encipherment;
    ext_key_usage = usage;
    is_ca = false;
    crl_distribution_points = crl_url ∷ [];
    ocsp_server = ocsp_url ∷ [];
    dns_names = if cert_type == "tls" then env.csr_dns_names csr else [];
    ip_addresses = if cert_type == "tls" then ips else [];
  }

  -- The certificate's PEM and the serial number's text.
  unfoldable pub sign_csr :
      Csr → String → String → List Addr → String → String → ℕ → Exec String (String × String)
  unfolding random_serial usage_of template
  sign_csr csr intermediate_id crl_url ips ocsp_url cert_type days = do
    cert_pem ← read_bytes env (intermediate_cert_path env intermediate_id)
    key_pem ← read_bytes env (intermediate_key_path env intermediate_id)
    ca ← load_ca_from_pem env cert_pem key_pem
    serial ← random_serial
    now ← reads (λ w. w.now)
    usage ← lift (usage_of cert_type) "invalid certificate type"
    der ←
        lift
          (env.create_cert (template csr serial now usage crl_url ips ocsp_url cert_type days)
            ca.cert (env.csr_public_key csr) ca.key)
          "create"
    pure (env.encode_pem "CERTIFICATE" der, to_hex serial)
