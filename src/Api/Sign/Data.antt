-- ===== src/Api/Sign/Data.antt =====
-- internal/api/sign_handler.go: what a request by data leads to.
use ad_pki_ca.Base.{
  ◌≡◌, ◌≢◌, ◌∷◌, List, none, ◌⊎◌, ℕ, some, [], String, if◌then◌else◌, ◌==◌, ◌++◌, pos,
}
use ad_pki_ca.Env.{Env, Curve, CsrTemplate}
use ad_pki_ca.World.{World, Exec, pure, reads, lift, ◌>>=◌}
use ad_pki_ca.Ca.Sign.{days_or}
use ad_pki_ca.Ca.Issued.{IssuedPaths}
use ad_pki_ca.Ca.Request.{create_csr, encode_private_key_to_pem}
use ad_pki_ca.Api.Http.{Request, Response, http_error}
use ad_pki_ca.Api.Sign.{SignInput, text_or, sign_response, parse_ips, sign_and_store, sent_input}
use ad_pki_ca.Api.Sign.Issued.{IsIssued}

-- The sizes that an RSA key may have.
abbrev pub IsSize : ℕ → Type 0
IsSize size = (size ≡ 2048) ⊎ (size ≡ 3072) ⊎ (size ≡ 4096)

module _ (env : Env) where
  open env use {Csr, Key, Addr}

  -- A key from the generators: an RSA key of one of the three sizes, or one on one of the curves.
  pub data IsGenerated (key : Key) : Type 0 where
    by_rsa : (draw size : ℕ) → IsSize size → env.generate_rsa draw size ≡ some key → IsGenerated key
    by_ecdsa :
        (draw : ℕ) (curve : Curve) → env.generate_ecdsa draw curve ≡ some key → IsGenerated key

  -- A request for the subject and the names of the body.
  pub record IsAskedBy (i : SignInput) (t : CsrTemplate) : Type 0 where
    pub common_name : t.subject.common_name ≡ i.subject.common_name
    pub organization : t.subject.organization ≡ i.subject.organization ∷ []
    pub organizational_unit : t.subject.organizational_unit ≡ i.subject.ou ∷ []
    pub locality : t.subject.locality ≡ i.subject.locality ∷ []
    pub province : t.subject.province ≡ i.subject.state ∷ []
    pub country : t.subject.country ≡ i.subject.country ∷ []
    pub names : t.dns_names ≡ i.subject.dns_names

  -- The addresses that texts are, in their order; a text that is none is passed over.
  pub data AreAddresses : List String → List Addr → Type 0 where
    no_more : AreAddresses [] []
    not_one :
        {s : String} {ss : List String} {ips : List Addr}
        → env.parse_ip s ≡ none
        → AreAddresses ss ips
        → AreAddresses (s ∷ ss) ips
    one :
        {s : String} {ss : List String} {ip : Addr} {ips : List Addr}
        → env.parse_ip s ≡ some ip
        → AreAddresses ss ips
        → AreAddresses (s ∷ ss) (ip ∷ ips)

  -- What an answer 200 to a request by data stands for.
  pub record IsMadeOf (i : SignInput) (v : World) : Type 0 where
    pub key : Key
    pub generated : IsGenerated key
    pub der : String
    pub csr : Csr
    pub asked : CsrTemplate
    pub of_input : IsAskedBy i asked
    pub requested : env.create_csr asked key ≡ some der
    pub parsed : env.parse_csr der ≡ some csr
    pub csr_pem : String
    pub start : World
    pub paths : IssuedPaths
    pub ips : List Addr
    pub addresses : (text_or "tls" i.kind ≢ "tls") ⊎ AreAddresses i.ip_addresses ips
    pub issued :
        IsIssued env csr i.crl_url ips i.ocsp_url
          (text_or "tls" i.kind)
          (days_or 365 i.validity_days)
          i.intermediate
          csr_pem
          (some (encode_private_key_to_pem env key))
          start
          v
          paths

  -- The parts of the handler after the key and the request were made.
  abbrev issuing : SignInput → Key → Csr → String → Exec Response (String × IssuedPaths)
  issuing i key csr der =
      sign_and_store env csr i.intermediate i.crl_url
        (if text_or "tls" i.kind == "tls" then parse_ips env i.ip_addresses else []) i.ocsp_url
        (text_or "tls" i.kind) (days_or 365 i.validity_days) i.subject.common_name
        (env.encode_pem "CERTIFICATE REQUEST" der) (some (encode_private_key_to_pem env key))

  abbrev answered : SignInput → String → IssuedPaths → Exec Response Response
  answered i serial paths =
      let kind : String = text_or "tls" i.kind in
      reads (λ w. w.now) >>= λ now. pure (
        sign_response kind i.subject.common_name
          (if kind == "tls" then i.subject.dns_names ++ i.ip_addresses else []) serial now
          (env.add_date now (pos (days_or 365 i.validity_days))) paths)

  abbrev read_input : Request → Exec Response SignInput
  read_input r = lift (sent_input env r) (http_error "invalid json" 400)
