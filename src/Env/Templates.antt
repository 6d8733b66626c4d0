-- ===== src/Env/Templates.antt =====
-- What the service hands to the certificate libraries, as far as it sets it, and what comes back.
use ad_pki_ca.Base.{ℕ, Bool, Option, List, String}
use ad_pki_ca.Json.{Json}

pub data CertType : Type 0 where
  server_auth client_auth code_signing : CertType

-- The template of an issued certificate.
pub record Template (Subject Addr : Type 0) : Type 0 where
  pub serial_number : ℕ
  pub subject : Subject
  pub not_before : ℕ
  pub not_after : ℕ
  pub key_encipherment : Bool
  pub ext_key_usage : CertType
  pub is_ca : Bool
  pub crl_distribution_points : List String
  pub ocsp_server : List String
  pub dns_names : List String
  pub ip_addresses : List Addr

-- pkix.Name
pub record Name : Type 0 where
  pub common_name : String
  pub organization : List String
  pub organizational_unit : List String
  pub locality : List String
  pub province : List String
  pub country : List String

-- x509.CertificateRequest, as a template
pub record CsrTemplate : Type 0 where
  pub subject : Name
  pub dns_names : List String

-- elliptic.P256, P384 and P521
pub data Curve : Type 0 where
  p256 p384 p521 : Curve

-- pkix.RevokedCertificate. A number that is not a natural one is none.
pub record Revoked : Type 0 where
  pub serial_number : Option ℕ
  pub revocation_time : ℕ

pub data OcspStatus : Type 0 where
  good revoked : OcspStatus

-- ocsp.Response; the time of a revocation is 0 if it is not set.
pub record OcspTemplate : Type 0 where
  pub status : OcspStatus
  pub serial_number : ℕ
  pub this_update : ℕ
  pub next_update : ℕ
  pub revoked_at : ℕ

-- timestamp.Timestamp
pub record Timestamp : Type 0 where
  pub hash_algorithm : ℕ
  pub hashed_message : String
  pub time : ℕ
  pub nonce : Option ℕ
  pub add_tsa_certificate : Bool
  pub policy : List ℕ

-- One answer of a DNS response; other records than TXT are ignored.
pub data Answer : Type 0 where
  txt : List String → Answer
  other : Answer

-- An HTTP response: its status, and its body if that can be read.
pub record HttpResponse : Type 0 where
  pub status_code : ℕ
  pub body : Option String

pub record Settings : Type 0 where
  pub crl_url : String
  pub ocsp_url : String
  pub intermediate_id : String
  pub validity_days : ℕ
  pub dns_servers : List String

-- How a command ended within its time: with success or not, and its output; or not at all.
pub data CommandEnd : Type 0 where
  finished : Bool → String → CommandEnd
  timed_out : CommandEnd

-- The Go type of a key
pub data KeyKind : Type 0 where
  rsa_key ecdsa_key other_key : KeyKind

-- jose.Header, as far as it is used; a field that is missing is "" or none.
pub record Header (Jwk : Type 0) : Type 0 where
  pub key_id : String
  pub json_web_key : Option Jwk
  pub extra_headers : List (String × Json)

-- syscall.Statfs_t
pub record DiskStat : Type 0 where
  pub bavail : ℕ
  pub bsize : ℕ
  pub blocks : ℕ
