-- ===== src/Ca/Validate.antt =====
-- internal/ca/validate.go, internal/ca/key_validation.go and internal/ca/ca.ParseCertificate.go: what is
-- checked of an intermediate before it is imported.
use ad_pki_ca.Base.{ℕ, none, some, String, ◌==◌, eqb, if◌then◌else◌}
use ad_pki_ca.Hex.{to_hex}
use ad_pki_ca.Env.{Env}
use ad_pki_ca.World.{Exec, ok, err, pure, require, lift, ◌>>=◌, ◌>>◌}

-- How a check fails: with an error, or in a panic.
pub data Failure : Type 0 where
  error : String → Failure
  panic : Failure

-- CertMeta
pub record CertMeta : Type 0 where
  pub common_name : String
  pub serial : String
  pub valid_from : ℕ
  pub valid_to : ℕ

module _ (env : Env) where
  open env use {Cert, Key}

  -- `pem.Decode` and `x509.ParseCertificate`
  unfoldable pub read_cert : String → String → Exec String Cert
  read_cert message pem = do
    der ← lift (env.decode_pem pem) message
    lift (env.parse_cert der) "parse"

  unfoldable pub check_intermediate : Cert → Cert → Exec String (Unit {0})
  check_intermediate root cert = do
    require (env.cert_is_ca cert) "certificate is not a CA"
    require (env.cert_constraints_valid cert) "invalid basic constraints"
    require (env.cert_is_ca cert) "certificate is not a CA"
    require (env.cert_issuer cert == env.cert_subject root) "issuer mismatch"
    require (env.cert_signed_from cert root) "invalid signature"

  -- ValidateIntermediate
  unfoldable pub validate_intermediate : String → String → Exec String (Unit {0})
  unfolding read_cert check_intermediate
  validate_intermediate root_pem cert_pem = do
    root ← read_cert "invalid root cert" root_pem
    cert ← read_cert "invalid intermediate cert" cert_pem
    check_intermediate root cert

  -- The key's modulus is compared with that of the certificate, which is taken for one of RSA.
  unfoldable pub check_key : Cert → Key → Exec Failure (Unit {0})
  check_key cert key w = elim (env.key_modulus key) [
    | none ↦ (err (error "unsupported key type"), w)
    | some n ↦ elim (env.cert_modulus cert) [
      | none ↦ (err panic, w)
      | some m ↦ if eqb m n then (ok tt, w) else (err (error "key does not match certificate"), w)
    ]
  ]

  -- ValidateKeyMatchesCert
  unfoldable pub validate_key_matches_cert : String → String → Exec Failure (Unit {0})
  unfolding check_key
  validate_key_matches_cert cert_pem key_pem = do
    cert_der ← lift (env.decode_pem cert_pem) (error "invalid cert")
    cert ← lift (env.parse_cert cert_der) (error "parse")
    key_der ← lift (env.decode_pem key_pem) (error "invalid key")
    key ← lift (env.parse_pkcs8 key_der) (error "parse")
    check_key cert key

  -- ParseCertificate
  unfoldable pub parse_certificate : String → Exec String CertMeta
  parse_certificate pem = do
    der ← lift (env.decode_pem pem) "invalid PEM"
    cert ← lift (env.parse_cert der) "parse"
    pure (record {
      common_name = env.cert_common_name cert;
      serial = to_hex (env.cert_serial cert);
      valid_from = env.cert_not_before cert;
      valid_to = env.cert_not_after cert;
    })
