-- ===== src/Acme/Sign/Leaf.antt =====
-- internal/acme/sign.go: the certificate that an order ends in.
use ad_pki_ca.Base.{pos}
use ad_pki_ca.Base.{
  ℕ, Bool, false, none, some, ◌≡◌, ◌≢◌, refl, [], String, ◌<>◌, arith, eq_iff, inl, inr,
}
use ad_pki_ca.Acme.Settings.{fetch_acme_settings}
use ad_pki_ca.Env.{Env, Settings, Template, CertType, server_auth}
use ad_pki_ca.World.{World, Outcome, ok, err}
use ad_pki_ca.World.Laws.{Outcome-cases, or_else-eq-ok}
use ad_pki_ca.Acme.Types.{Order}
use ad_pki_ca.Ca.Sign.{sign_csr, usage_of, template}
use ad_pki_ca.Ca.Sign.Issue.{sign_csr-IsSigned}
use ad_pki_ca.Ca.Issued.{IssuedPaths, store_certificate}
use ad_pki_ca.Ca.Chain.{root_path, build_chain}
use ad_pki_ca.Ca.Loader.{bytes_of, intermediate_cert_path, read_bytes}
use ad_pki_ca.Files.{read_file}
use ad_pki_ca.Base.{Option-cases, Bool-cases, eqb}
use ad_pki_ca.Acme.Sign.{fetched, effective_settings, first_or, notify_laravel, sign_order_csr}

module _ (env : Env) where
  open env use {Csr, Addr, Subject, Cert, Key}

  build_chain_begins :
      (leaf id chain : String) (w v : World)
      → build_chain env leaf id w ≡ (ok chain, v)
      → (issuers : String) × (chain ≡ leaf <> issuers)
  unfolding build_chain read_bytes
  build_chain_begins leaf id chain w v h =
      elim (Option-cases (bytes_of env (read_file (intermediate_cert_path env id) w.fs))) [
        | inl n ↦ absurd (ground (arith, n))
        | inr (intermediate, a) ↦
            elim (Option-cases (bytes_of env (read_file (root_path env) w.fs))) [
              | inl n ↦ absurd (ground (arith, a, n))
              | inr (root, b) ↦ (intermediate <> root, ground (arith, a, b))
            ]
      ]

  -- The template of a server certificate for a request, valid from a time for some days.
  pub record IsServer (csr : Csr) (now days : ℕ) (t : Template Subject Addr) : Type 0 where
    pub no_ca : t.is_ca ≡ false
    pub usage : t.ext_key_usage ≡ server_auth
    pub names : t.dns_names ≡ env.csr_dns_names csr
    pub from : t.not_before ≡ now
    pub until : t.not_after ≡ env.add_date now (pos days)

  template-IsServer :
      (csr : Csr) (serial now days : ℕ) (usage : Bool × CertType) (crl_url ocsp_url : String)
      → usage_of "tls" ≡ some usage
      → eqb days 0 ≡ false
      → IsServer csr now days (template env csr serial now usage crl_url [] ocsp_url "tls" days)
  unfolding template usage_of
  template-IsServer csr serial now days (e, x) crl_url ocsp_url h some_days = record {
    no_ca = refl;
    usage = ground (arith, eq_iff "tls" "tls");
    names = refl;
    from = refl;
    until = ground (arith, some_days);
  }

  -- The settings always have some days.
  effective_settings_days : (w : World) → eqb (effective_settings env w).validity_days 0 ≡ false
  unfolding effective_settings
  effective_settings_days w = elim (Bool-cases (eqb (fetched env w).validity_days 0)) [
    | inl zero_days ↦ ground (arith, zero_days)
    | inr some_days ↦ ground (arith, some_days)
  ]

  -- The days of the backend's settings, or 90 where it names none or cannot be asked.
  pub data IsValidity (w : World) (days : ℕ) : Type 0 where
    configured :
        (s : Settings)
        → (fetch_acme_settings env w).0 ≡ ok s
        → s.validity_days ≡ days
        → days ≢ 0
        → IsValidity w days
    unset :
        (s : Settings)
        → (fetch_acme_settings env w).0 ≡ ok s
        → s.validity_days ≡ 0
        → days ≡ 90
        → IsValidity w days
    unanswered :
        (e : String) → (fetch_acme_settings env w).0 ≡ err e → days ≡ 90 → IsValidity w days

  effective_settings-IsValidity :
      (w : World) → IsValidity w (effective_settings env w).validity_days
  unfolding effective_settings
  effective_settings-IsValidity w = elim (Outcome-cases (fetch_acme_settings env w).0) [
    | inl (e, k) ↦ unanswered e k (ground (arith, k))
    | inr (s, k) ↦ elim (Bool-cases (eqb s.validity_days 0)) [
      | inl zero_days ↦ unset s k (ground (arith, zero_days)) (ground (arith, k, zero_days))
      | inr some_days ↦ configured s k (ground (arith, k, some_days)) (ground (arith, k, some_days))
    ]
  ]

  -- A leaf that was made of the request by an intermediate, and begins the chain.
  pub record IsLeaf (csr : Csr) (w : World) (chain : String) : Type 0 where
    pub leaf : Template Subject Addr
    pub cert : Cert
    pub key : Key
    pub der : String
    pub issuers : String
    pub days : ℕ
    pub for_days : IsValidity w days
    pub server : IsServer csr w.now days leaf
    pub made : env.create_cert leaf cert (env.csr_public_key csr) key ≡ some der
    pub begins : chain ≡ env.encode_pem "CERTIFICATE" der <> issuers

  -- What is signed for an order is a chain that begins with a certificate which was made of the request
  -- from a template of a server certificate: no CA, for the names of the request, valid from now for
  -- the days of the settings, or 90.
  pub sign_order_csr-IsLeaf :
      (csr : Csr) (order : Order) (w v : World) (chain : String)
      → sign_order_csr env csr order w ≡ (ok chain, v)
      → IsLeaf csr w chain
  unfolding sign_order_csr notify_laravel
  sign_order_csr-IsLeaf csr order w v chain h =
      let s = effective_settings env w in
      let signed : Outcome String (String × String) × World =
        sign_csr env csr s.intermediate_id s.crl_url [] s.ocsp_url "tls" s.validity_days w in
      elim (Outcome-cases signed.0) [
        | inl (e, a) ↦ absurd (ground (arith, a))
        | inr ((pem, serial), a) ↦
            let stored : Outcome String IssuedPaths × World =
              store_certificate env (first_or env (env.csr_common_name csr) (env.csr_dns_names csr))
                serial pem "" none none signed.1 in
            elim (Outcome-cases stored.0) [
              | inl (e, b) ↦ absurd (ground (arith, a, b))
              | inr (paths, b) ↦
                  let u : World =
                    (notify_laravel env csr serial paths.crt_path s.validity_days order.account_id
                      stored.1).1 in
                  let by =
                    sign_csr-IsSigned env csr s.intermediate_id s.crl_url [] s.ocsp_url "tls"
                      s.validity_days w signed.1 pem serial (λ i. (a i, signed.1)) in
                  let (issuers, begins) = build_chain_begins pem s.intermediate_id chain u v (
                    or_else-eq-ok (build_chain env pem s.intermediate_id)
                      (λ e. "chain build failed: " <> e) u v chain (ground (arith, a, b))) in
                  record {
                    days = s.validity_days;
                    for_days = effective_settings-IsValidity w;
                    leaf =
                        template env csr by.serial w.now by.usage s.crl_url [] s.ocsp_url "tls"
                          s.validity_days;
                    cert = by.cert;
                    key = by.key;
                    der = by.der;
                    issuers = issuers;
                    server =
                        template-IsServer csr by.serial w.now s.validity_days by.usage s.crl_url
                          s.ocsp_url by.kind (effective_settings_days w);
                    made = by.made;
                    begins = ground (arith, begins, by.text);
                  }
            ]
      ]
