-- ===== src/Api/Signed.antt =====
-- The steps by which the handlers of internal/api/acme_handler.go take a signed request apart: the
-- body, its protected header, the nonce, and the account's signature. Each handler has these steps
-- in its own text; here they are functions of what differs, the texts of the errors and the header
-- fields that are decoded.
pub mod Laws
use ad_pki_ca.Base.{
  Bool, true, false, Option, none, some, List, [], ◌∷◌, String, ◌==◌, ◌<>◌, if◌then◌else◌,
}
use ad_pki_ca.Json.{opt_bind, Json, Fields, get, to_str, to_fields}
use ad_pki_ca.Env.{Env}
use ad_pki_ca.World.{World, Exec, ok, err, pure, lift, or_else, ◌>>=◌, ◌>>◌}
use ad_pki_ca.Acme.Types.{Account}
use ad_pki_ca.Acme.Nonce.{consume}
use ad_pki_ca.Acme.Storage.{load_account}
use ad_pki_ca.Acme.Account.{load_account_jwk}
use ad_pki_ca.Api.Http.{
  Request, Response, acme_error, http_error, err_malformed, err_bad_nonce, err_unauthorized,
  extract_id,
}

-- The texts for a body that cannot be read, that is no JWS, and whose header is not base64.
pub record Texts : Type 0 where
  pub no_body : String
  pub no_jws : String
  pub no_header : String

-- The protected header, with the fields of all handlers; one that a handler does not decode is "".
pub record Protected : Type 0 where
  pub nonce : String
  pub kid : String
  pub jwk : Option Json

-- `rawJWS` with its three fields, and that of the challenge handler with only the first.
unfoldable pub decode_raw : Json → Option String
decode_raw j = opt_bind (to_fields j) λ fs. opt_bind (to_str (get "protected" fs)) λ protected.
    opt_bind (to_str (get "payload" fs))
      λ payload. opt_bind (to_str (get "signature" fs)) λ signature. some protected

unfoldable pub decode_raw_protected : Json → Option String
decode_raw_protected j = opt_bind (to_fields j) λ fs. to_str (get "protected" fs)

-- alg, nonce, url, jwk: new-account
unfoldable pub decode_jwk_header : Json → Option Protected
decode_jwk_header j = opt_bind (to_fields j) λ fs. opt_bind (to_str (get "alg" fs)) λ alg.
    opt_bind (to_str (get "nonce" fs)) λ nonce.
      opt_bind (to_str (get "url" fs))
        λ url. some (record { nonce = nonce; kid = ""; jwk = get "jwk" fs })

-- nonce, url, kid: new-order
unfoldable pub decode_url_header : Json → Option Protected
decode_url_header j = opt_bind (to_fields j) λ fs. opt_bind (to_str (get "nonce" fs)) λ nonce.
    opt_bind (to_str (get "url" fs)) λ url.
      opt_bind (to_str (get "kid" fs)) λ kid. some (record { nonce = nonce; kid = kid; jwk = none })

-- nonce, kid: challenge, finalize, revoke-cert
unfoldable pub decode_kid_header : Json → Option Protected
decode_kid_header j = opt_bind (to_fields j) λ fs. opt_bind (to_str (get "nonce" fs)) λ nonce.
    opt_bind (to_str (get "kid" fs)) λ kid. some (record { nonce = nonce; kid = kid; jwk = none })

-- `r.Method != http.MethodPost`
unfoldable pub require_post : Response → Request → Exec Response (Unit {0})
require_post refusal r w = if r.method == "POST" then (ok tt, w) else (err refusal, w)

-- An id at the end of the request's path.
unfoldable pub require_id : String → String → Exec Response (Unit {0})
require_id id detail w = if id == "" then (err (acme_error err_malformed detail), w) else (ok tt, w)

-- `nonce == "" || !Nonces.Consume(nonce)`
unfoldable pub spend_nonce : String → Exec Response (Unit {0})
spend_nonce nonce w =
    if nonce == ""
    then (err (acme_error err_bad_nonce "invalid or missing nonce"), w)
    else let (fresh, n) = consume nonce w.now w.nonces in
      if fresh
      then (ok tt, record w { nonces = n })
      else (err (acme_error err_bad_nonce "invalid or missing nonce"), record w { nonces = n })

module _ (env : Env) where
  -- The body and its protected header, before the nonce is looked at.
  unfoldable pub open_header :
      Texts
      → (Json → Option String)
      → (Json → Option Protected)
      → Request
      → Exec Response (String × Protected)
  open_header texts raw header r = do
    body ← lift r.body (acme_error err_malformed texts.no_body)
    protected ← lift (opt_bind (env.parse_text body) raw) (acme_error err_malformed texts.no_jws)
    bytes ← lift (env.decode_url protected) (acme_error err_malformed texts.no_header)
    h ←
        lift (opt_bind (env.parse_text bytes) header)
          (acme_error err_malformed "invalid protected header")
    pure (body, h)

  -- The same, with the nonce spent.
  unfoldable pub read_header :
      Texts
      → (Json → Option String)
      → (Json → Option Protected)
      → Request
      → Exec Response (String × Protected)
  read_header texts raw header r = do
    (body, h) ← open_header texts raw header r
    spend_nonce h.nonce
    pure (body, h)

  -- The payload, if the key signed the body.
  unfoldable pub verify_body : String → String → env.Jwk → Exec Response String
  verify_body refusal body jwk = do
    jws ← lift (env.parse_signed body) (acme_error err_malformed "invalid JWS")
    lift (env.verify jws jwk) (acme_error err_unauthorized refusal)

  -- finalize and revoke-cert: the account that `kid` names, and the payload that its key signed.
  unfoldable pub authenticate : String → String → Exec Response (Account × String)
  authenticate kid body = do
    acc ←
        or_else (load_account env (extract_id kid "/acme/account/"))
          (λ _. acme_error err_unauthorized "account not found")
    jwk ←
        or_else (load_account_jwk env acc)
          (λ _. acme_error err_unauthorized "failed to load account key")
    payload ← verify_body "JWS verification failed" body jwk
    pure (acc, payload)
