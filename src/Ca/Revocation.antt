-- ===== src/Ca/Revocation.antt =====
-- internal/ca/crl.go: the revoked certificates that the backend knows, and the list of them that an
-- intermediate signs. A text that is no hexadecimal number leaves a serial number as `SetString`
-- does, which is the host's; a date that cannot be read is the zero time.
pub mod Serial
use ad_pki_ca.Base.{
  ℕ, suc, ◌+◌, Option, none, some, List, [], ◌∷◌, map, String, ◌==◌, ◌<>◌, if◌then◌else◌,
}
use ad_pki_ca.Json.{opt_bind, Json, get, to_str, to_fields, to_list}
use ad_pki_ca.Hex.{parse_hex}
use ad_pki_ca.Env.{Env, Revoked}
use ad_pki_ca.World.{Exec, ok, err, pure, reads, lift, ◌>>=◌}
use ad_pki_ca.Ca.Loader.{
  Ca, read_bytes, intermediate_cert_path, intermediate_key_path, load_ca_from_pem,
}

pub record RevokedCert : Type 0 where
  pub serial_number : String
  pub revoked_at : String

unfoldable pub decode_revoked_cert : Json → Option RevokedCert
decode_revoked_cert j = opt_bind (to_fields j) λ fs.
    opt_bind (to_str (get "serial_number" fs)) λ serial.
      opt_bind (to_str (get "revoked_at" fs))
        λ date. some (record { serial_number = serial; revoked_at = date })

module _ (env : Env) where
  -- backendURL
  unfoldable pub backend_url : String
  backend_url = if env.backend_variable == "" then "http://127.0.0.1" else env.backend_variable

  unfoldable pub read_serial : String → Option ℕ
  read_serial s = elim (parse_hex s) [ some n ↦ some n | none ↦ env.odd_serial s ]

  unfoldable pub revoked_of : RevokedCert → Revoked
  unfolding read_serial
  revoked_of r = record {
    serial_number = read_serial r.serial_number;
    revocation_time = elim (env.parse_date r.revoked_at) [ none ↦ 0 | some t ↦ t ];
  }

  -- FetchRevokedCertificates. The status of the response is not looked at.
  unfoldable pub fetch_revoked_certificates : String → Exec String (List Revoked)
  unfolding revoked_of decode_revoked_cert
  fetch_revoked_certificates url = do
    doc ← (λ w. lift (env.get_json w.now url) "request failed" w)
    data' ← lift (to_list decode_revoked_cert (some doc)) "decode"
    pure (map revoked_of data')

  unfoldable pub sign_crl : Ca env → List Revoked → Exec String String
  sign_crl ca revoked w =
      elim (env.create_crl w.draws ca.cert ca.key revoked w.now (w.now + 86400)) [
        | none ↦ (err "create", record w { draws = suc w.draws })
        | some der ↦ (ok der, record w { draws = suc w.draws })
      ]

  -- GenerateCRL
  unfoldable pub generate_crl : String → List Revoked → Exec String String
  unfolding sign_crl
  generate_crl id revoked = do
    cert_pem ← read_bytes env (intermediate_cert_path env id)
    key_pem ← read_bytes env (intermediate_key_path env id)
    ca ← load_ca_from_pem env cert_pem key_pem
    der ← sign_crl ca revoked
    pure (env.encode_pem "X509 CRL" der)
