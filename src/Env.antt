-- ===== src/Env.antt =====
-- What the service uses and this repository does not hold: the process's environment and random
-- source, go-jose (keys and signed requests), `crypto/x509` (requests and certificates), the
-- network (HTTP, DNS), commands, and the backend. Each is a record of functions; the theorems take any.
mod Templates
pub use Templates.*
use ad_pki_ca.Base.{ℕ, ℤ, Bool, Option, List, String}
use ad_pki_ca.Json.{Json}
use ad_pki_ca.Files.{FilePath, Fs}

-- os, crypto/rand, and the text formats of encoding/json and encoding/base64. Bytes are a
-- `String`. `base_variable` is PKI_BASE_DIR, "" if it is not set; `active_link` is the last name of what `intermediates/active` links to. `random i n` is
-- the i-th read of the random source, for n bytes, which may fail; `random_int` draws a number below
-- a bound in the same way. `odd_serial` is what `big.Int.SetString` leaves of a text that is no
-- hexadecimal number, `scan_int` what `fmt.Sscanf` reads for "%d". A run of openssl changes the files
-- and those of a temporary directory, and succeeds or not; `i` counts the runs.
-- `parse_text` reads a text that is one JSON value, `first_json` the first value of a text. In the local
-- zone, `add_date` is `AddDate(0, 0, days)`, and `two_o_clock` the 02:00 of a time's day. `statfs` asks at a
-- time; `gb_text` is "%.1f" of a number of bytes over 1024 three times.
pub record Host : Type 0 where
  pub base_variable : String
  pub active_link : Option String
  pub random : ℕ → ℕ → Option (List ℕ)
  pub random_int : ℕ → ℕ → Option ℕ
  pub decode_url : String → Option String
  pub parse_text : String → Option Json
  pub first_json : String → Option Json
  pub json_text : Json → String
  pub parse_date : String → Option ℕ
  pub odd_serial : String → Option ℕ
  pub scan_int : String → Option ℤ
  pub temp_dir : ℕ → Option String
  pub openssl : ℕ → List String → Fs × List (String × String) → Bool × (Fs × List (String × String))
  pub add_date : ℕ → ℤ → ℕ
  pub two_o_clock : ℕ → ℕ
  pub set_ntp : ℕ → String → CommandEnd
  pub runtime_version : String
  pub statfs : ℕ → String → Option DiskStat
  pub gb_text : ℕ → String

-- github.com/go-jose/go-jose/v3: a key, a signed message, and the key's JSON. `unmarshal_jws` is
-- `json.Unmarshal` into the struct, `first_header` the protected header of the first signature.
pub record Jose : Type 1 where
  pub Jwk : Type 0
  pub Jws : Type 0
  pub unmarshal_jwk : Json → Option Jwk
  pub marshal_jwk : Jwk → Option String
  pub parse_jwk : String → Option Jwk
  pub thumbprint : Jwk → Option (List ℕ)
  pub parse_signed : String → Option Jws
  pub verify : Jws → Jwk → Option String
  pub unmarshal_jws : String → Option Jws
  pub first_header : Jws → Option (Header Jwk)
  pub unsafe_payload : Jws → String
  pub public_jwk : Jwk → Jwk
  pub key_kind : Jwk → KeyKind

-- crypto/x509, encoding/pem and the key packages. A modulus is that of an RSA key, none for another;
-- `public_key_bits` is what `asn1.Unmarshal` finds in the key's information. `generate_rsa` and
-- `generate_ecdsa` take the number of the draw.
pub record X509 : Type 1 where
  pub Csr : Type 0
  pub Cert : Type 0
  pub Key : Type 0
  pub PublicKey : Type 0
  pub Subject : Type 0
  pub Addr : Type 0
  pub parse_csr : String → Option Csr
  pub csr_signed : Csr → Bool
  pub csr_subject : Csr → Subject
  pub csr_common_name : Csr → String
  pub csr_dns_names : Csr → List String
  pub csr_public_key : Csr → PublicKey
  pub decode_pem : String → Option String
  pub encode_pem : String → String → String
  pub parse_cert : String → Option Cert
  pub cert_serial : Cert → ℕ
  pub cert_common_name : Cert → String
  pub cert_not_before : Cert → ℕ
  pub cert_not_after : Cert → ℕ
  pub cert_is_ca : Cert → Bool
  pub cert_constraints_valid : Cert → Bool
  pub cert_issuer : Cert → String
  pub cert_subject : Cert → String
  pub cert_signed_from : Cert → Cert → Bool
  pub raw_subject : Cert → String
  pub public_key_bits : Cert → String
  pub cert_modulus : Cert → Option ℕ
  pub key_modulus : Key → Option ℕ
  pub is_signer : Key → Bool
  pub parse_pkcs8 : String → Option Key
  pub parse_pkcs1 : String → Option Key
  pub parse_ec : String → Option Key
  pub create_cert : Template Subject Addr → Cert → PublicKey → Key → Option String
  pub generate_rsa : ℕ → ℕ → Option Key
  pub generate_ecdsa : ℕ → Curve → Option Key
  pub marshal_pkcs1 : Key → String
  pub marshal_ec : Key → String
  pub create_csr : CsrTemplate → Key → Option String
  pub recreate_csr : ℕ → Csr → Key → Option String
  pub parse_ip : String → Option Addr
  pub create_crl : ℕ → Cert → Key → List Revoked → ℕ → ℕ → Option String

-- golang.org/x/crypto/ocsp and github.com/digitorus/timestamp, for the certificates and keys of x509.
pub record Responders (Cert Key : Type 0) : Type 1 where
  pub OcspRequest : Type 0
  pub parse_ocsp : String → Option OcspRequest
  pub ocsp_serial : OcspRequest → ℕ
  pub issuer_name_hash : OcspRequest → String
  pub issuer_key_hash : OcspRequest → String
  pub sha1 : String → String
  pub create_ocsp : ℕ → Cert → Cert → OcspTemplate → Key → Option String
  pub TsRequest : Type 0
  pub parse_timestamp : String → Option TsRequest
  pub ts_hash_algorithm : TsRequest → ℕ
  pub ts_hashed_message : TsRequest → String
  pub ts_nonce : TsRequest → Option ℕ
  pub create_timestamp : ℕ → Timestamp → Cert → Key → Option String

-- The network at a time: a GET, a TXT query (name, server), and the backend's call that revokes. `get_json`
-- is a GET with the service's token, with the document that the response's body holds; `post_json` a
-- POST with it, with the status of the answer, none where the request or the answer fails.
pub record Network : Type 0 where
  pub http_get : ℕ → String → Option HttpResponse
  pub exchange : ℕ → String → String → Option (List Answer)
  pub sha256 : String → List ℕ
  pub post_revocation : ℕ → String → String → Option ℕ
  pub post_json : ℕ → String → Json → Option ℕ
  pub get_json : ℕ → String → Option Json
  pub backend_variable : String

pub record Env : Type 1 where
  pub host : Host
  pub open host use *
  pub jose : Jose
  pub open jose use *
  pub x509 : X509
  pub open x509 use *
  pub responders : Responders x509.Cert x509.Key
  pub open responders use *
  pub network : Network
  pub open network use *
