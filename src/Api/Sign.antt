-- ===== src/Api/Sign.antt =====
-- internal/api/sign_handler.go: signing an uploaded request, and making key and request from data.
-- Texts of `fmt.Println` are left out. A list without elements is written as null.
pub mod Issued
pub mod Upload
pub mod Data
use ad_pki_ca.Base.{
  ℕ, suc, ◌+◌, ℤ, pos, to_nat, Option, none, some, List, [], ◌∷◌, ◌++◌, String, ◌==◌, ◌<>◌, eqb,
  ◌||◌, if◌then◌else◌,
}
use ad_pki_ca.Json.{
  opt_bind, Json, null, str, stamp, arr, obj, field, end, get, to_str, to_num, to_fields, to_list,
  decode_str, encode_items,
}
use ad_pki_ca.Env.{Env}
use ad_pki_ca.Files.{FilePath}
use ad_pki_ca.World.{World, Exec, ok, err, pure, reads, lift, or_else, ◌>>=◌, ◌>>◌}
use ad_pki_ca.Ca.Sign.{days_or, sign_csr}
use ad_pki_ca.Ca.Chain.{build_chain}
use ad_pki_ca.Ca.Issued.{IssuedPaths, store_certificate}
use ad_pki_ca.Ca.Request.{
  CsrInput, parse_csr_pem, generate_key, encode_private_key_to_pem, create_csr,
}
use ad_pki_ca.Api.Http.{
  Request, Response, http_error, json_response, form_value, form_file, read_all, merge,
}

-- The text, or another if it is empty.
abbrev pub text_or : String → String → String
text_or fallback s = if s == "" then fallback else s

abbrev path_json : FilePath → Json
path_json p = arr (encode_items str p)

abbrev path_or_null : Option FilePath → Json
path_or_null none = null
path_or_null (some p) = path_json p

abbrev names_json : List String → Json
names_json [] = null
names_json (s ∷ ss) = arr (encode_items str (s ∷ ss))

-- SignResponse. A path is written by its names.
unfoldable pub sign_response :
    String → String → List String → String → ℕ → ℕ → IssuedPaths → Response
sign_response kind common_name san serial from until paths = json_response 200 (
    obj (
      field "type" (str kind) (
        field "common_name" (str common_name) (
          field "san" (names_json san) (
            field "serial_number" (str serial) (
              field "valid_from" (stamp from) (
                field "valid_to" (stamp until) (
                  field "crt_path" (path_json paths.crt_path) (
                    field "csr_path" (path_json paths.csr_path) (
                      field "key_path" (path_or_null paths.key_path)
                        (field "chain_path" (path_or_null paths.chain_path) end)))))))))))

-- The request's body of SignFromDataHandler; its e-mail address is read and not used.
pub record SignInput : Type 0 where
  pub kind : String
  pub subject : CsrInput
  pub ip_addresses : List String
  pub key_size : ℕ
  pub key_type : String
  pub curve : String
  pub intermediate : String
  pub crl_url : String
  pub ocsp_url : String
  pub validity_days : ℕ

unfoldable pub decode_sign_input : Json → Option SignInput
decode_sign_input j = opt_bind (to_fields j) λ fs. opt_bind (to_str (get "type" fs)) λ kind.
    opt_bind (to_str (get "common_name" fs)) λ common_name.
      opt_bind (to_str (get "organization" fs)) λ organization.
        opt_bind (to_str (get "ou" fs)) λ ou. opt_bind (to_str (get "locality" fs)) λ locality.
          opt_bind (to_str (get "state" fs)) λ state.
            opt_bind (to_str (get "country" fs)) λ country. opt_bind (to_str (get "email" fs)) λ _.
              opt_bind (to_list decode_str (get "san_dns" fs)) λ dns.
                opt_bind (to_list decode_str (get "san_ips" fs)) λ ips.
                  opt_bind (to_num (get "key_size" fs)) λ size.
                    opt_bind (to_str (get "key_type" fs)) λ key_type.
                      opt_bind (to_str (get "curve" fs)) λ curve.
                        opt_bind (to_str (get "intermediate" fs)) λ intermediate.
                          opt_bind (to_str (get "crl_url" fs)) λ crl_url.
                            opt_bind (to_str (get "ocsp_url" fs)) λ ocsp_url.
                              opt_bind (to_num (get "validity_days" fs)) λ days. some (record {
                                kind = kind;
                                subject = record {
                                  common_name = common_name;
                                  organization = organization;
                                  ou = ou;
                                  locality = locality;
                                  state = state;
                                  country = country;
                                  dns_names = dns;
                                };
                                ip_addresses = ips;
                                key_size = size;
                                key_type = key_type;
                                curve = curve;
                                intermediate = intermediate;
                                crl_url = crl_url;
                                ocsp_url = ocsp_url;
                                validity_days = days;
                              })

-- The key's type, size and curve, with their defaults.
pub record KeyChoice : Type 0 where
  pub kind : String
  pub size : ℕ
  pub curve : String

unfoldable pub key_choice : SignInput → Option KeyChoice
key_choice i =
    let kind : String = text_or "rsa" i.key_type in
    if kind == "rsa"
    then some (record {
      kind = kind;
      size =
          if eqb i.key_size 2048 || eqb i.key_size 3072 || eqb i.key_size 4096
          then i.key_size
          else 3072;
      curve = i.curve;
    })
    else if kind == "ecdsa"
    then some (record { kind = kind; size = i.key_size; curve = text_or "P256" i.curve })
    else none

module _ (env : Env) where
  open env use {Csr, Addr}

  abbrev server_error : String → Response
  server_error e = http_error e 500

  -- What of a list of texts is an address.
  unfoldable pub parse_ips : List String → List Addr
  parse_ips [] = []
  parse_ips (s ∷ ss) =
      let rest = parse_ips ss in elim (env.parse_ip s) [ none ↦ rest | some ip ↦ ip ∷ rest ]

  -- The days of the form: 365, unless a number is given.
  unfoldable pub form_days : String → ℤ
  form_days v = if v == "" then pos 365 else (elim (env.scan_int v) [ none ↦ pos 365 | some n ↦ n ])

  -- Signing, the chain and the storing, which both handlers share.
  unfoldable pub sign_and_store :
      Csr
      → String
      → String
      → List Addr
      → String
      → String
      → ℕ
      → String
      → String
      → Option String
      → Exec Response (String × IssuedPaths)
  sign_and_store csr intermediate crl_url ips ocsp_url kind days common_name csr_pem key = do
    (cert, serial) ←
        or_else (sign_csr env csr intermediate crl_url ips ocsp_url kind days) server_error
    chain ← or_else (build_chain env cert intermediate) server_error
    paths ←
        or_else (store_certificate env common_name serial cert csr_pem key (some chain))
          server_error
    pure (serial, paths)

  unfoldable pub require_text : String → String → Exec Response (Unit {0})
  require_text s message w = if s == "" then (err (http_error message 400), w) else (ok tt, w)

  unfoldable pub sign_upload : Request → Exec Response Response
  unfolding require_text sign_and_store form_days
  sign_upload r = do
    file ← lift (form_file "csr" r) (http_error "missing csr" 400)
    csr_pem ← lift (read_all file) (http_error "failed to read csr" 500)
    csr ← or_else (parse_csr_pem env csr_pem) (λ e. http_error e 400)
    require_text (form_value "intermediate" r) "missing intermediate"
    require_text (form_value "crl_url" r) "missing crl_url"
    let kind : String = text_or "tls" (form_value "type" r)
    let days : ℤ = form_days (form_value "validity_days" r)
    (serial, paths) ←
        sign_and_store csr (form_value "intermediate" r) (form_value "crl_url" r) []
          (form_value "ocsp_url" r) kind (to_nat days) (env.csr_common_name csr) csr_pem none
    now ← reads (λ w. w.now)
    pure (
        sign_response kind (env.csr_common_name csr)
          (if kind == "tls" then env.csr_dns_names csr else []) serial now (env.add_date now days)
          paths)

  -- SignHandler
  unfoldable pub sign_handler : Request → World → Response × World
  unfolding sign_upload
  sign_handler r w = let (out, v) = sign_upload r w in (merge out, v)

  -- `x509.CreateCertificateRequest(rand.Reader, csr, key)`
  unfoldable pub recreate_csr : Csr → env.Key → Exec Response String
  recreate_csr csr key w = elim (env.recreate_csr w.draws csr key) [
    | none ↦ (err (server_error "create request"), record w { draws = suc w.draws })
    | some der ↦ (ok der, record w { draws = suc w.draws })
  ]

  unfoldable pub sign_data : SignInput → Exec Response Response
  unfolding key_choice parse_ips recreate_csr sign_and_store
  sign_data i = do
    let kind : String = text_or "tls" i.kind
    let days : ℕ = days_or 365 i.validity_days
    choice ← lift (key_choice i) (http_error "invalid key type" 400)
    key ← or_else (generate_key env choice.kind choice.size choice.curve) server_error
    csr ← or_else (create_csr env i.subject key) server_error
    der ← recreate_csr csr key
    (serial, paths) ←
        sign_and_store csr i.intermediate i.crl_url
          (if kind == "tls" then parse_ips i.ip_addresses else []) i.ocsp_url kind days
          i.subject.common_name (env.encode_pem "CERTIFICATE REQUEST" der)
          (some (encode_private_key_to_pem env key))
    now ← reads (λ w. w.now)
    pure (
        sign_response kind i.subject.common_name
          (if kind == "tls" then i.subject.dns_names ++ i.ip_addresses else []) serial now
          (env.add_date now (pos days)) paths)

  abbrev pub sent_input : Request → Option SignInput
  sent_input r = opt_bind (opt_bind r.body env.first_json) decode_sign_input

  -- SignFromDataHandler
  unfoldable pub sign_from_data_handler : Request → World → Response × World
  unfolding decode_sign_input sign_data
  sign_from_data_handler r w =
      let (out, v) = (lift (sent_input r) (http_error "invalid json" 400) >>= sign_data) w in
      (merge out, v)
