-- ===== src/Ca/Sign/Issue.antt =====
-- internal/ca/sign.go and internal/acme/sign.go: which certificate is made.
use Prim.Native.Nat.{◌^◌}
use ad_pki_ca.Base.{
  ℕ, Bool, false, some, ◌≡◌, refl, pos, eqb, if◌then◌else◌, ◌==◌, [], ◌∷◌, List, String, arith,
  Option-cases, inl, inr,
}
use ad_pki_ca.Env.{Env, CertType, Template}
use ad_pki_ca.Files.{read_file}
use ad_pki_ca.World.{World, ok}
use ad_pki_ca.World.Laws.{Outcome-cases}
use ad_pki_ca.Ca.Loader.{
  bytes_of, read_bytes, load_ca_from_pem, intermediate_cert_path, intermediate_key_path,
}
use ad_pki_ca.Ca.Sign.{usage_of, random_serial, template, sign_csr}

module _ (env : Env) where
  open env use {Csr, Addr, Subject, Cert, Key}

  load_ca_from_pem-world : (c k : String) (w : World) → (load_ca_from_pem env c k w).1 ≡ w
  unfolding load_ca_from_pem
  load_ca_from_pem-world c k w = ground arith

  -- A template of a certificate that is no CA, from a time for some days, of the request's subject; for a
  -- server also of the request's names and of the addresses.
  pub record IsLeafOf (csr : Csr) (serial now : ℕ) (crl_url : String) (ips : List Addr)
      (ocsp_url cert_type : String) (days : ℕ) (t : Template Subject Addr) : Type 0 where
    pub number : t.serial_number ≡ serial
    pub subject : t.subject ≡ env.csr_subject csr
    pub from : t.not_before ≡ now
    pub until : t.not_after ≡ env.add_date now (pos (if eqb days 0 then 365 else days))
    pub no_ca : t.is_ca ≡ false
    pub crl : t.crl_distribution_points ≡ crl_url ∷ []
    pub ocsp : t.ocsp_server ≡ ocsp_url ∷ []
    pub names : t.dns_names ≡ (if cert_type == "tls" then env.csr_dns_names csr else [])
    pub addresses : t.ip_addresses ≡ (if cert_type == "tls" then ips else [])

  template-IsLeafOf :
      (csr : Csr) (serial now : ℕ) (usage : Bool × CertType) (crl_url : String) (ips : List Addr)
      (ocsp_url cert_type : String) (days : ℕ)
      → IsLeafOf csr serial now crl_url ips ocsp_url cert_type days
          (template env csr serial now usage crl_url ips ocsp_url cert_type days)
  unfolding template
  template-IsLeafOf csr serial now (e, x) crl_url ips ocsp_url cert_type days = record {
    number = refl;
    subject = refl;
    from = refl;
    until = refl;
    no_ca = refl;
    crl = refl;
    ocsp = refl;
    names = refl;
    addresses = refl;
  }

  -- A certificate that `SignCSR` made of a request, in the state `w`.
  pub record IsSigned (csr : Csr) (crl_url : String) (ips : List Addr) (ocsp_url cert_type : String)
      (days : ℕ) (w : World) (pem : String) : Type 0 where
    pub usage : Bool × CertType
    pub kind : usage_of cert_type ≡ some usage
    pub serial : ℕ
    pub cert : Cert
    pub key : Key
    pub der : String
    pub made :
        env.create_cert
          (template env csr serial w.now usage crl_url ips ocsp_url cert_type days)
          cert
          (env.csr_public_key csr)
          key
        ≡ some der
    pub leaf :
        IsLeafOf csr serial w.now crl_url ips ocsp_url cert_type days
          (template env csr serial w.now usage crl_url ips ocsp_url cert_type days)
    pub text : pem ≡ env.encode_pem "CERTIFICATE" der

  pub sign_csr-IsSigned :
      (csr : Csr) (id crl_url : String) (ips : List Addr) (ocsp_url cert_type : String) (days : ℕ)
      (w v : World) (pem serial : String)
      → sign_csr env csr id crl_url ips ocsp_url cert_type days w ≡ (ok (pem, serial), v)
      → IsSigned csr crl_url ips ocsp_url cert_type days w pem
  unfolding sign_csr read_bytes random_serial
  sign_csr-IsSigned csr id crl_url ips ocsp_url cert_type days w v pem serial h =
      elim (Option-cases (bytes_of env (read_file (intermediate_cert_path env id) w.fs))) [
        | inl n ↦ absurd (ground (arith, n))
        | inr (cert_pem, a) ↦
            elim (Option-cases (bytes_of env (read_file (intermediate_key_path env id) w.fs))) [
              | inl n ↦ absurd (ground (arith, a, n))
              | inr (key_pem, b) ↦
                  elim (Outcome-cases (load_ca_from_pem env cert_pem key_pem w).0) [
                    | inl (e, n) ↦ absurd (ground (arith, a, b, n))
                    | inr (ca, c) ↦ elim (Option-cases (env.random_int w.draws (2 ^ 62))) [
                      | inl n ↦
                          absurd
                            (ground (arith, a, b, c, n, load_ca_from_pem-world cert_pem key_pem w))
                      | inr (n, d) ↦ elim (Option-cases (usage_of cert_type)) [
                        | inl u ↦ absurd (
                            ground
                              (arith, a, b, c, d, u, load_ca_from_pem-world cert_pem key_pem w))
                        | inr (usage, u) ↦
                            elim (Option-cases (
                              env.create_cert
                                (template env csr n w.now usage crl_url ips ocsp_url cert_type days)
                                ca.cert (env.csr_public_key csr) ca.key)) [
                                  | inl m ↦ absurd (
                                      ground (
                                        arith,
                                        a,
                                        b,
                                        c,
                                        d,
                                        u,
                                        m,
                                        load_ca_from_pem-world cert_pem key_pem w,
                                      ))
                                  | inr (der, m) ↦ record {
                                    usage = usage;
                                    kind = u;
                                    serial = n;
                                    cert = ca.cert;
                                    key = ca.key;
                                    der = der;
                                    made = m;
                                    leaf =
                                        template-IsLeafOf csr n w.now usage crl_url ips ocsp_url
                                          cert_type days;
                                    text = ground (
                                      arith,
                                      a,
                                      b,
                                      c,
                                      d,
                                      u,
                                      m,
                                      load_ca_from_pem-world cert_pem key_pem w,
                                    );
                                  }
                                ]
                      ]
                    ]
                  ]
            ]
      ]
