-- ===== src/Api/Import/Checked.antt =====
-- internal/api/import_handler.go: what is checked before an import.
use ad_pki_ca.Base.{ℕ, ◌≡◌, ◌∙◌, some, String, true, arith, Option-cases, inl, inr, eq_iff}
use ad_pki_ca.Env.{Env}
use ad_pki_ca.World.{World, ok}
use ad_pki_ca.World.Laws.{>>=-eq-ok}
use ad_pki_ca.Ca.Validate.{
  read_cert, check_intermediate, validate_intermediate, check_key, validate_key_matches_cert,
}
use ad_pki_ca.Api.Import.{Upload}

module _ (env : Env) where
  open env use {Cert, Key}

  -- A certificate of a CA that the root issued and signed, and its RSA key.
  pub record IsChecked (u : Upload) (cert : Cert) (key : Key) : Type 0 where
    pub root : Cert
    pub root_der : String
    pub cert_der : String
    pub key_der : String
    pub root_text : env.decode_pem u.root ≡ some root_der
    pub root_read : env.parse_cert root_der ≡ some root
    pub cert_text : env.decode_pem u.intermediate ≡ some cert_der
    pub cert_read : env.parse_cert cert_der ≡ some cert
    pub key_text : env.decode_pem u.key ≡ some key_der
    pub key_read : env.parse_pkcs8 key_der ≡ some key
    pub is_ca : env.cert_is_ca cert ≡ true
    pub constraints : env.cert_constraints_valid cert ≡ true
    pub issued : env.cert_issuer cert ≡ env.cert_subject root
    pub signed : env.cert_signed_from cert root ≡ true
    pub modulus : ℕ
    pub of_cert : env.cert_modulus cert ≡ some modulus
    pub of_key : env.key_modulus key ≡ some modulus

  read_cert-eq-ok :
      (message pem : String) (w v : World) (cert : Cert)
      → read_cert env message pem w ≡ (ok cert, v)
      → (der : String) × (env.decode_pem pem ≡ some der)
        × (env.parse_cert der ≡ some cert)
        × (v ≡ w)
  unfolding read_cert
  read_cert-eq-ok message pem w v cert h = elim (Option-cases (env.decode_pem pem)) [
    | inl n ↦ absurd (ground (arith, n, h))
    | inr (der, k) ↦ (der, k, ground (arith, k, h), ground (arith, k, h))
  ]

  check_intermediate-eq-ok :
      (root cert : Cert) (w v : World)
      → check_intermediate env root cert w ≡ (ok tt, v)
      → (env.cert_is_ca cert ≡ true)
        × (env.cert_constraints_valid cert ≡ true)
        × (env.cert_issuer cert ≡ env.cert_subject root)
        × (env.cert_signed_from cert root ≡ true)
        × (v ≡ w)
  unfolding check_intermediate
  check_intermediate-eq-ok root cert w v h = (
    ground arith,
    ground arith,
    ground (arith, eq_iff (env.cert_issuer cert) (env.cert_subject root)),
    ground arith,
    ground arith,
  )

  check_key-eq-ok :
      (cert : Cert) (key : Key) (w v : World)
      → check_key env cert key w ≡ (ok tt, v)
      → (n : ℕ) × (env.cert_modulus cert ≡ some n) × (env.key_modulus key ≡ some n) × (v ≡ w)
  unfolding check_key
  check_key-eq-ok cert key w v h = elim (Option-cases (env.key_modulus key)) [
    | inl n ↦ absurd (ground (arith, n, h))
    | inr (n, k) ↦ (n, ground (arith, k, h), k, ground (arith, k, h))
  ]

  pub checks-IsChecked :
      (u : Upload) (w w₁ w₂ : World)
      → validate_intermediate env u.root u.intermediate w ≡ (ok tt, w₁)
      → validate_key_matches_cert env u.intermediate u.key w₁ ≡ (ok tt, w₂)
      → (cert : Cert) × (key : Key) × IsChecked u cert key × (w₂ ≡ w)
  unfolding validate_intermediate validate_key_matches_cert
  checks-IsChecked u w w₁ w₂ h k =
      let (root, a₁, a, h₁) = >>=-eq-ok (read_cert env "invalid root cert" u.root) _ w w₁ tt h in
      let (cert, b₁, b, h₂) =
        >>=-eq-ok (read_cert env "invalid intermediate cert" u.intermediate) _ a₁ w₁ tt h₁ in
      let (root_der, root_text, root_read, same₁) =
        read_cert-eq-ok "invalid root cert" u.root w a₁ root a in
      let (cert_der, cert_text, cert_read, same₂) =
        read_cert-eq-ok "invalid intermediate cert" u.intermediate a₁ b₁ cert b in
      let (is_ca, constraints, issued, signed, same₃) =
        check_intermediate-eq-ok root cert b₁ w₁ h₂ in
      elim (Option-cases (env.decode_pem u.key)) [
        | inl n ↦ absurd (ground (arith, cert_text, cert_read, n, k))
        | inr (key_der, key_text) ↦ elim (Option-cases (env.parse_pkcs8 key_der)) [
          | inl n ↦ absurd (ground (arith, cert_text, cert_read, key_text, n, k))
          | inr (key, key_read) ↦
              let (modulus, of_cert, of_key, same₄) =
                check_key-eq-ok cert key w₁ w₂
                  (ground (arith, cert_text, cert_read, key_text, key_read, k)) in
              (
                cert,
                key,
                record {
                  root = root;
                  root_der = root_der;
                  cert_der = cert_der;
                  key_der = key_der;
                  root_text = root_text;
                  root_read = root_read;
                  cert_text = cert_text;
                  cert_read = cert_read;
                  key_text = key_text;
                  key_read = key_read;
                  is_ca = is_ca;
                  constraints = constraints;
                  issued = issued;
                  signed = signed;
                  modulus = modulus;
                  of_cert = of_cert;
                  of_key = of_key;
                },
                same₄ ∙ same₃ ∙ same₂ ∙ same₁,
              )
        ]
      ]
