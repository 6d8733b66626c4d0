-- ===== src/Tests.antt =====
-- A small CA for the tests: two accounts, a pending order of the first with an authorization, an
-- intermediate and a root, and what the libraries answer for the few texts that occur.
mod Stored
mod Orders
mod Served
mod Issued
mod Placed
mod Answers
mod Responder
mod Direct
mod Lists
mod Stamps
mod Refined
use ad_pki_ca.Base.{pos}
use ad_pki_ca.Base.{
  ℕ, ◌+◌, ◌*◌, ◌/◌, true, false, none, some, Option, List, [], ◌∷◌, String, ◌==◌, if◌then◌else◌,
}
use ad_pki_ca.Json.{Json, Fields, str, arr, obj, nil, cons, end, field}
use ad_pki_ca.Env.{
  Host, Jose, X509, Responders, finished, rsa_key, Network, Env, Answer, txt, HttpResponse,
}
use ad_pki_ca.Files.{FilePath, File, Fs, json, text}
use ad_pki_ca.World.{World}
use ad_pki_ca.Acme.Nonce.{NonceManager}
use ad_pki_ca.Acme.Types.{
  Account, Identifier, Order, Challenge, Authorization, encode_account, encode_order, encode_authz,
}
use ad_pki_ca.Api.Http.{Request}

abbrev two_texts : String → String → String → String → Json
two_texts k v l w = obj (field k (str v) (field l (str w) end))

abbrev pub parse : String → Option Json
parse s =
    if s == "order-request"
    then some (two_texts "protected" "order-header" "payload" "order-payload")
    else if s == "order-header"
    then some (
        obj (
          field "nonce" (str "n1")
            (field "url" (str "u") (field "kid" (str "/acme/account/a1") end))))
    else if s == "order-payload"
    then some
        (obj (field "identifiers" (arr (cons (two_texts "type" "dns" "value" "a.org") nil)) end))
    else if s == "finalize-request"
    then some (two_texts "protected" "finalize-header" "payload" "finalize-payload")
    else if s == "finalize-header"
    then some (two_texts "nonce" "n1" "kid" "/acme/account/a2")
    else if s == "finalize-payload"
    then some (obj (field "csr" (str "csr-1") end))
    else if s == "sign-data"
    then some (two_texts "common_name" "c.org" "intermediate" "int")
    else if s == "time-server"
    then some (obj (field "ntp_server" (str " pool.ntp.org") end))
    else none

abbrev pub host : Host
host = record {
  base_variable = "/storage";
  active_link = some "int";
  random = λ i n. some (i ∷ n ∷ []);
  random_int = λ i n. some 7;
  decode_url = λ s. some s;
  parse_text = parse;
  first_json = parse;
  add_date = λ t days. t;
  two_o_clock = λ t. t / 86400 * 86400 + 7200;
  json_text = λ j. "";
  parse_date = λ s. some 500;
  odd_serial = λ s. none;
  scan_int = λ s. some (pos 30);
  temp_dir = λ i. some "tsa-gen-1";
  openssl = λ i args state. (true, (state.0, ("tsa.crt", "tsa") ∷ ("tsa.key", "key") ∷ []));
  set_ntp = λ i server. finished true "ok";
  runtime_version = "go1.22";
  statfs = λ t path. some (record { bavail = 3; bsize = 4096; blocks = 5 });
  gb_text = λ bytes. "0.0";
}

abbrev unmarshal : Json → Option String
unmarshal (str k) = some k
unmarshal _ = none

-- A message is signed by the key of the account that its header names.
abbrev verified : String → String → Option String
verified s key =
    if s == "order-request"
    then (if key == "key-1" then some "order-payload" else none)
    else if s == "finalize-request"
    then (if key == "key-2" then some "finalize-payload" else none)
    else none

abbrev pub jose : Jose
jose = record {
  Jwk = String;
  Jws = String;
  unmarshal_jwk = unmarshal;
  marshal_jwk = λ k. some k;
  parse_jwk = λ s. some s;
  thumbprint = λ k. some (1 ∷ 2 ∷ 3 ∷ []);
  parse_signed = λ s. some s;
  verify = verified;
  unmarshal_jws = λ s. none;
  first_header =
      λ s. some (record { key_id = ""; json_web_key = some "key-1"; extra_headers = [] });
  unsafe_payload = λ s. s;
  public_jwk = λ k. k;
  key_kind = λ k. rsa_key;
}

abbrev pub x509 : X509
x509 = record {
  Csr = String;
  Cert = String;
  Key = String;
  PublicKey = String;
  Subject = String;
  Addr = String;
  parse_csr = λ s. some s;
  csr_signed = λ c. true;
  csr_subject = λ c. "CN=b.org";
  csr_common_name = λ c. "b.org";
  csr_dns_names = λ c. "b.org" ∷ [];
  csr_public_key = λ c. c;
  decode_pem = λ s. some s;
  encode_pem = λ kind s. s;
  parse_cert = λ s. some s;
  cert_serial = λ c. 7;
  cert_common_name = λ c. c;
  cert_not_before = λ c. 0;
  cert_not_after = λ c. 100000;
  cert_is_ca = λ c. true;
  cert_constraints_valid = λ c. true;
  cert_issuer = λ c. "CN=root";
  cert_subject = λ c. "CN=root";
  cert_signed_from = λ c d. true;
  raw_subject = λ c. c;
  public_key_bits = λ c. c;
  cert_modulus = λ c. some 15;
  key_modulus = λ k. some 15;
  is_signer = λ k. true;
  parse_pkcs8 = λ s. some s;
  parse_pkcs1 = λ s. none;
  parse_ec = λ s. none;
  create_cert = λ t ca pk key. some "leaf";
  generate_rsa = λ i bits. some "rsa";
  generate_ecdsa = λ i c. some "ecdsa";
  marshal_pkcs1 = λ k. k;
  marshal_ec = λ k. k;
  create_csr = λ t k. some "csr";
  recreate_csr = λ i c k. some "csr";
  parse_ip = λ s. some s;
  create_crl = λ i c k revoked from until. some "crl";
}

abbrev pub responders : Responders String String
responders = record {
  OcspRequest = String;
  parse_ocsp = λ s. some s;
  ocsp_serial = λ s. 7;
  issuer_name_hash = λ s. "intermediate";
  issuer_key_hash = λ s. "intermediate";
  sha1 = λ s. s;
  create_ocsp = λ i c d t k. some "response";
  TsRequest = String;
  parse_timestamp = λ s. some s;
  ts_hash_algorithm = λ s. 5;
  ts_hashed_message = λ s. s;
  ts_nonce = λ s. none;
  create_timestamp = λ i t c k. some "stamp";
}

abbrev pub network : Network
network = record {
  http_get = λ t url. some (record { status_code = 200; body = some "t1.AQID\n" });
  exchange = λ t domain server. some (txt ("x" ∷ []) ∷ []);
  sha256 = λ s. 9 ∷ [];
  post_revocation = λ t serial reason. some 200;
  post_json = λ t url j. some 200;
  get_json = λ t url.
      some (arr (cons (two_texts "serial_number" "7" "revoked_at" "2024-01-01 00:00:00") nil));
  backend_variable = "";
}

abbrev pub env : Env
env = record { host = host; jose = jose; x509 = x509; responders = responders; network = network }

abbrev pub account_1 : Account
account_1 = record {
  id = "a1";
  status = "valid";
  contact = "mailto:a@a.org" ∷ [];
  public_key_jwk = "key-1";
  created_at = 0;
}

abbrev pub account_2 : Account
account_2 = record {
  id = "a2";
  status = "valid";
  contact = [];
  public_key_jwk = "key-2";
  created_at = 0;
}

abbrev pub a_org : Identifier
a_org = record { kind = "dns"; value = "a.org" }

abbrev pub challenge_1 : Challenge
challenge_1 = record {
  id = "c1";
  kind = "http-01";
  status = "pending";
  token = "t1";
  url = "http://ca/acme/challenge/c1";
  validated_at = none;
}

abbrev pub authz_1 : Authorization
authz_1 = record {
  id = "z1";
  account_id = "a1";
  order_id = "o1";
  status = "pending";
  identifier = a_org;
  challenges = challenge_1 ∷ [];
  expires_at = 90000;
  created_at = 900;
}

abbrev pub order_1 : Order
order_1 = record {
  id = "o1";
  account_id = "a1";
  status = "pending";
  identifiers = a_org ∷ [];
  authorizations = "http://ca/acme/authz/z1" ∷ [];
  finalize_url = "http://ca/acme/finalize/o1";
  certificate_url = "";
  cert_path = "";
  not_before = none;
  not_after = none;
  expires_at = 90000;
  created_at = 900;
  intermediate_id = "";
}

abbrev file_of : FilePath → Json → File
file_of p j = record { path = p; content = json j; mod_time = 900 }

abbrev text_file : FilePath → String → File
text_file p s = record { path = p; content = text s; mod_time = 900 }

abbrev pub fs : Fs
fs = record {
  files =
      file_of ("a1.json" ∷ "accounts" ∷ "acme" ∷ "storage" ∷ []) (encode_account account_1)
      ∷ file_of ("a2.json" ∷ "accounts" ∷ "acme" ∷ "storage" ∷ []) (encode_account account_2)
      ∷ file_of ("o1.json" ∷ "orders" ∷ "acme" ∷ "storage" ∷ []) (encode_order order_1)
      ∷ file_of ("z1.json" ∷ "authz" ∷ "acme" ∷ "storage" ∷ []) (encode_authz authz_1)
      ∷ text_file ("intermediate.crt" ∷ "int" ∷ "intermediates" ∷ "storage" ∷ []) "intermediate"
      ∷ text_file ("intermediate.key" ∷ "private" ∷ "int" ∷ "intermediates" ∷ "storage" ∷ []) "key"
      ∷ text_file ("root.crt" ∷ "root" ∷ "storage" ∷ []) "root"
      ∷ [];
  dirs = [] ∷ ("storage" ∷ []) ∷ [];
  refuses = λ p. false;
  cuts = λ p. none;
  dir_time = λ p. 0;
}

abbrev pub nonces : NonceManager
nonces = record { nonces = ("n1", record { created_at = 900 }) ∷ [] }

abbrev pub world : World
world = record {
  fs = fs;
  nonces = nonces;
  jobs = [];
  now = 1000;
  draws = 0;
  ocsp_cache = [];
  notices = [];
  ntp_runs = [];
}

abbrev pub post : String → String → Request
post path body = record {
  method = "POST";
  path = path;
  host = "ca";
  forwarded_proto = "";
  tls = false;
  ca_token = "";
  body = some body;
  form = record { values = []; files = [] };
}
