-- ===== src/Api/Http.antt =====
-- Requests and responses, and the helpers of internal/api/acme_handler.go. A response's headers are
-- fields, "" if they are not set; its body is a problem document, a text, or a JSON document.
pub mod Extract
pub mod Refusal
use ad_pki_ca.Base.{lookup}
use ad_pki_ca.Base.{
  ℕ, Bool, true, false, Option, none, some, List, [], ◌∷◌, String, ◌==◌, ◌<>◌, if◌then◌else◌,
  strip_prefix, has_prefix,
}
use ad_pki_ca.Json.{Json}
use ad_pki_ca.Env.{Env}
use ad_pki_ca.World.{World, Exec, Outcome, ok, err, or_zero, ◌>>=◌}
use ad_pki_ca.Acme.Account.{new_id}
use ad_pki_ca.Acme.Nonce.{record_nonce, cleanup}

-- A file of a form: what `io.ReadAll` returns of it, and whether that is all.
pub record FormFile : Type 0 where
  pub content : String
  pub whole : Bool

-- The values and the files of a form; a value that is missing is "".
pub record Form : Type 0 where
  pub values : List (String × String)
  pub files : List (String × FormFile)

-- `body` is none where reading it fails; a header that is missing is "".
pub record Request : Type 0 where
  pub method : String
  pub path : String
  pub host : String
  pub forwarded_proto : String
  pub tls : Bool
  pub ca_token : String
  pub body : Option String
  pub form : Form

pub record AcmeError : Type 0 where
  pub kind : String
  pub status : ℕ

abbrev pub err_bad_nonce : AcmeError
err_bad_nonce = record { kind = "urn:ietf:params:acme:error:badNonce"; status = 400 }

abbrev pub err_malformed : AcmeError
err_malformed = record { kind = "urn:ietf:params:acme:error:malformed"; status = 400 }

abbrev pub err_unauthorized : AcmeError
err_unauthorized = record { kind = "urn:ietf:params:acme:error:unauthorized"; status = 403 }

abbrev pub err_not_found : AcmeError
err_not_found = record { kind = "urn:ietf:params:acme:error:accountDoesNotExist"; status = 404 }

abbrev err_rate_limited : AcmeError
err_rate_limited = record { kind = "urn:ietf:params:acme:error:rateLimited"; status = 429 }

abbrev err_connection_failed : AcmeError
err_connection_failed = record { kind = "urn:ietf:params:acme:error:connection"; status = 400 }

pub data Body : Type 0 where
  nothing : Body
  problem : (kind detail : String) → Body
  plain : String → Body
  document : Json → Body

pub record Response : Type 0 where
  pub status : ℕ
  pub content_type : String
  pub location : String
  pub link : String
  pub replay_nonce : String
  pub body : Body

-- writeACMEError
abbrev pub acme_error : AcmeError → String → Response
acme_error e detail = record {
  status = e.status;
  content_type = "application/problem+json";
  location = "";
  link = "";
  replay_nonce = "";
  body = problem e.kind detail;
}

-- http.Error
abbrev pub http_error : String → ℕ → Response
http_error message status = record {
  status = status;
  content_type = "text/plain; charset=utf-8";
  location = "";
  link = "";
  replay_nonce = "";
  body = plain message;
}

abbrev pub json_response : ℕ → Json → Response
json_response status doc = record {
  status = status;
  content_type = "application/json";
  location = "";
  link = "";
  replay_nonce = "";
  body = document doc;
}

unfoldable pub acme_base_url : Request → String
acme_base_url r =
    (if r.forwarded_proto == "" then (if r.tls then "https" else "http") else r.forwarded_proto)
    <> "://"
    <> r.host

-- What follows the first occurrence of `prefix` in `url`, "" if there is none.
unfoldable pub extract_id : String → String → String
extract_id String.[] prefix = elim (strip_prefix prefix "") [ none ↦ "" | some rest ↦ rest ]
extract_id (String.◌∷◌ c s) prefix =
    let later = extract_id s prefix in
    elim (strip_prefix prefix (String.◌∷◌ c s)) [ none ↦ later | some rest ↦ rest ]

abbrev pub merge : Outcome Response Response → Response
merge (ok r) = r
merge (err r) = r

module _ (env : Env) where
  -- `Nonces.Generate`. Its cleanup goroutine is run at once.
  unfoldable pub generate : Exec String String
  unfolding new_id
  generate = do
    nonce ← new_id env 16
    λ w. (ok nonce, record w { nonces = cleanup w.now (record_nonce nonce w.now w.nonces) })

  -- `addNonce`: the header's value, "" if no nonce could be drawn.
  unfoldable pub add_nonce : World → String × World
  unfolding generate
  add_nonce w = let (r, w') = generate w in (elim r [ ok nonce ↦ nonce | err _ ↦ "" ], w')

  -- A handler that begins with `addNonce(w)`: whatever it then answers has the nonce.
  unfoldable pub with_nonce : Exec Response Response → World → Response × World
  with_nonce core w =
      let (nonce, w₁) = add_nonce w in
      let (out, w₂) = core w₁ in (record (merge out) { replay_nonce = nonce }, w₂)

-- A handler that panics: net/http closes the connection, and no status is sent.
abbrev pub aborted : Response
aborted = record {
  status = 0;
  content_type = "";
  location = "";
  link = "";
  replay_nonce = "";
  body = nothing;
}

-- `r.FormValue` and `r.FormFile`
abbrev pub form_value : String → Request → String
form_value k r = elim (lookup k r.form.values) [ none ↦ "" | some v ↦ v ]

abbrev pub form_file : String → Request → Option FormFile
form_file k r = lookup k r.form.files

-- `io.ReadAll` of such a file
abbrev pub read_all : FormFile → Option String
read_all f = if f.whole then some f.content else none

abbrev pub plain_response : ℕ → String → String → Response
plain_response status kind text = record {
  status = status;
  content_type = kind;
  location = "";
  link = "";
  replay_nonce = "";
  body = plain text;
}
