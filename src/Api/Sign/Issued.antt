-- ===== src/Api/Sign/Issued.antt =====
-- internal/api/sign_handler.go: the certificate that both handlers issue.
use ad_pki_ca.Base.{
  ◌≡◌, ◌≢◌, ◌∙◌, sym, ap, ℕ, Option, some, Option-cases, inl, inr, List, String, ◌<>◌, arith,
}
use std.Path.{subst}
use ad_pki_ca.Env.{Env}
use ad_pki_ca.Files.{FilePath, Fs, read_file}
use ad_pki_ca.World.Keeps.{Keeps, >>=-Keeps, lift-Keeps}
use ad_pki_ca.Ca.Loader.{
  bytes_of, read_bytes, load_ca_from_pem, intermediate_cert_path, intermediate_key_path,
}
use ad_pki_ca.World.{World, Outcome, ok, pure, or_else}
use ad_pki_ca.World.Laws.{>>=-eq-ok, or_else-eq-ok}
use ad_pki_ca.Ca.Sign.{sign_csr, random_serial}
use ad_pki_ca.Ca.Sign.Issue.{IsSigned, sign_csr-IsSigned}
use ad_pki_ca.Ca.Chain.{build_chain, root_path}
use ad_pki_ca.Ca.Issued.{IssuedPaths, store_certificate}
use ad_pki_ca.Ca.Issued.Kept.{IsStored, store_certificate-IsStored}
use ad_pki_ca.Api.Http.{http_error}
use ad_pki_ca.Api.Http.Refusal.{Refuses, >>=-Refuses, or_else-Refuses, pure-Refuses}
use ad_pki_ca.Api.Sign.{sign_and_store}

abbrev fs_of : World → Fs
fs_of w = w.fs

module _ (env : Env) where
  open env use {Csr, Addr}

  pub server_error-refuses : (e : String) → (http_error e 500).status ≢ 200
  server_error-refuses e h = ground arith

  fs_of-read_bytes : (p : FilePath) → Keeps fs_of (read_bytes env p)
  unfolding read_bytes
  fs_of-read_bytes p w = lift-Keeps fs_of _ _ w

  fs_of-load : (cert key : String) → Keeps fs_of (load_ca_from_pem env cert key)
  unfolding load_ca_from_pem
  fs_of-load cert key w = ground arith

  fs_of-serial : Keeps fs_of (random_serial env)
  unfolding random_serial
  fs_of-serial w = ground arith

  fs_of-sign_csr :
      (csr : Csr) (id crl : String) (ips : List Addr) (ocsp kind : String) (days : ℕ)
      → Keeps fs_of (sign_csr env csr id crl ips ocsp kind days)
  unfolding sign_csr
  fs_of-sign_csr csr id crl ips ocsp kind days =
      >>=-Keeps fs_of (read_bytes env (intermediate_cert_path env id)) _ (fs_of-read_bytes _)
        λ cert_pem.
          >>=-Keeps fs_of (read_bytes env (intermediate_key_path env id)) _ (fs_of-read_bytes _)
            λ key_pem.
              >>=-Keeps fs_of (load_ca_from_pem env cert_pem key_pem) _
                (fs_of-load cert_pem key_pem)
                λ ca. >>=-Keeps fs_of (random_serial env) _ fs_of-serial λ serial w. ground arith

  -- The certificate, then that of the intermediate, then the root's, from their files.
  pub record IsChainOf (intermediate cert : String) (w : World) (chain : String) : Type 0 where
    pub issuer : String
    pub root : String
    pub issuer_file :
        bytes_of env (read_file (intermediate_cert_path env intermediate) w.fs) ≡ some issuer
    pub root_file : bytes_of env (read_file (root_path env) w.fs) ≡ some root
    pub joined : chain ≡ cert <> issuer <> root

  build_chain-IsChainOf :
      (intermediate cert : String) (w u v : World) (chain : String)
      → u.fs ≡ w.fs
      → build_chain env cert intermediate u ≡ (ok chain, v)
      → IsChainOf intermediate cert w chain
  unfolding build_chain read_bytes
  build_chain-IsChainOf intermediate cert w u v chain same h =
      elim (Option-cases
        (bytes_of env (read_file (intermediate_cert_path env intermediate) u.fs))) [
          | inl n ↦ absurd (ground (arith, n))
          | inr (issuer, a) ↦ elim (Option-cases (bytes_of env (read_file (root_path env) u.fs))) [
            | inl n ↦ absurd (ground (arith, a, n))
            | inr (root, b) ↦ record {
              issuer = issuer;
              root = root;
              issuer_file =
                  subst
                    (λ fs.
                      bytes_of env (read_file (intermediate_cert_path env intermediate) fs)
                      ≡ some issuer)
                    same a;
              root_file =
                  subst (λ fs. bytes_of env (read_file (root_path env) fs) ≡ some root) same b;
              joined = ground (arith, a, b);
            }
          ]
        ]

  -- A certificate that was made of a request, and stored with it, its chain and a key.
  pub record IsIssued (csr : Csr) (crl_url : String) (ips : List Addr) (ocsp_url kind : String)
      (days : ℕ) (intermediate csr_pem : String) (key : Option String) (w v : World)
      (paths : IssuedPaths) : Type 0 where
    pub cert : String
    pub chain : String
    pub chained : IsChainOf intermediate cert w chain
    pub signed : IsSigned env csr crl_url ips ocsp_url kind days w cert
    pub stored : IsStored env paths cert csr_pem key (some chain) v.fs

  pub sign_and_store-IsIssued :
      (csr : Csr) (intermediate crl_url : String) (ips : List Addr) (ocsp_url kind : String)
      (days : ℕ) (name csr_pem : String) (key : Option String) (w v : World) (serial : String)
      (paths : IssuedPaths)
      → sign_and_store env csr intermediate crl_url ips ocsp_url kind days name csr_pem key w
        ≡ (ok (serial, paths), v)
      → IsIssued csr crl_url ips ocsp_url kind days intermediate csr_pem key w v paths
  unfolding sign_and_store
  sign_and_store-IsIssued csr intermediate crl_url ips ocsp_url kind days name csr_pem key w v
        serial paths h =
      let ((cert, text), w₁, a, h₁) =
        >>=-eq-ok
          (or_else (sign_csr env csr intermediate crl_url ips ocsp_url kind days)
            (λ e. http_error e 500))
          _ w v (serial, paths) h in
      let (chain, w₂, b, h₂) =
        >>=-eq-ok (or_else (build_chain env cert intermediate) (λ e. http_error e 500)) _ w₁ v
          (serial, paths) h₁ in
      let (made, w₃, c, h₃) =
        >>=-eq-ok
          (or_else (store_certificate env name text cert csr_pem key (some chain))
            (λ e. http_error e 500))
          (λ p. pure (text, p)) w₂ v (serial, paths) h₂ in
      let stored =
        store_certificate-IsStored env name text cert csr_pem key (some chain) w₂ w₃ made (
          or_else-eq-ok (store_certificate env name text cert csr_pem key (some chain))
            (λ e. http_error e 500) w₂ w₃ made c) in
      let same : made ≡ paths = ground (arith, h₃) in
      let after : w₃ ≡ v = ground (arith, h₃) in
      record {
        cert = cert;
        chain = chain;
        chained =
            build_chain-IsChainOf intermediate cert w w₁ w₂ chain
              (ap fs_of (
                  ap (λ (o : Outcome String (String × String) × World). o.1)
                    (sym (
                      or_else-eq-ok (sign_csr env csr intermediate crl_url ips ocsp_url kind days)
                        (λ e. http_error e 500) w w₁ (cert, text) a)))
                ∙ fs_of-sign_csr csr intermediate crl_url ips ocsp_url kind days w)
              (or_else-eq-ok (build_chain env cert intermediate) (λ e. http_error e 500) w₁ w₂ chain
                b);
        signed =
            sign_csr-IsSigned env csr intermediate crl_url ips ocsp_url kind days w w₁ cert text (
              or_else-eq-ok (sign_csr env csr intermediate crl_url ips ocsp_url kind days)
                (λ e. http_error e 500) w w₁ (cert, text) a);
        stored =
            subst (λ p. IsStored env p cert csr_pem key (some chain) v.fs) same
              (subst (λ u. IsStored env made cert csr_pem key (some chain) u.fs) after stored);
      }

  pub sign_and_store-Refuses :
      (csr : Csr) (intermediate crl_url : String) (ips : List Addr) (ocsp_url kind : String)
      (days : ℕ) (name csr_pem : String) (key : Option String)
      → Refuses
          (sign_and_store env csr intermediate crl_url ips ocsp_url kind days name csr_pem key)
  unfolding sign_and_store
  sign_and_store-Refuses csr intermediate crl_url ips ocsp_url kind days name csr_pem key =
      >>=-Refuses
        (or_else (sign_csr env csr intermediate crl_url ips ocsp_url kind days)
          (λ e. http_error e 500))
        _
        (or_else-Refuses (sign_csr env csr intermediate crl_url ips ocsp_url kind days)
          (λ e. http_error e 500) server_error-refuses)
        λ (cert, serial).
          >>=-Refuses (or_else (build_chain env cert intermediate) (λ e. http_error e 500)) _
            (or_else-Refuses (build_chain env cert intermediate) (λ e. http_error e 500)
              server_error-refuses)
            λ chain.
              >>=-Refuses
                (or_else (store_certificate env name serial cert csr_pem key (some chain))
                  (λ e. http_error e 500))
                (λ paths. pure (serial, paths))
                (or_else-Refuses (store_certificate env name serial cert csr_pem key (some chain))
                  (λ e. http_error e 500) server_error-refuses)
                λ paths. pure-Refuses (serial, paths)
