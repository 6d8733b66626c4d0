-- ===== src/Api/Finalize.antt =====
-- internal/api/acme_handler.go: finalize and the download of the certificate.
pub mod Ownership
pub mod Signing
pub mod Issuing
pub mod Download
use ad_pki_ca.Base.{Option, none, some, String, ◌<>◌, if◌then◌else◌}
use ad_pki_ca.Json.{
  opt_bind, Json, obj, str, stamp, arr, field, end, get, to_str, to_fields, encode_items,
}
use ad_pki_ca.Env.{Env}
use ad_pki_ca.World.{World, Exec, ok, err, pure, lift, or_else, or_zero, ◌>>=◌, ◌>>◌}
use ad_pki_ca.Acme.Types.{Order, Account, order_valid, encode_identifier}
use ad_pki_ca.Acme.Storage.{load_order, save_order}
use ad_pki_ca.Acme.Sign.{sign_order_csr, save_certificate, load_certificate}
use ad_pki_ca.Api.Http.{
  Request, Response, Body, plain, acme_error, http_error, json_response, err_malformed,
  err_not_found, acme_base_url, with_nonce,
}
use ad_pki_ca.Api.Signed.{
  Texts, decode_raw, decode_kid_header, require_post, require_id, read_header, authenticate,
}
use ad_pki_ca.Api.Account.{id_after}
use ad_pki_ca.Api.Challenge.{method_refused}

-- A struct with one text field.
unfoldable pub decode_one : String → Json → Option String
decode_one k j = opt_bind (to_fields j) λ fs. to_str (get k fs)

abbrev pub finalize_texts : Texts
finalize_texts = record {
  no_body = "failed to read body";
  no_jws = "invalid JWS structure";
  no_header = "invalid protected header";
}

module _ (env : Env) where
  open env use {Csr}

  -- The certificate request in the payload.
  unfoldable pub read_csr : String → Exec Response Csr
  unfolding decode_one
  read_csr payload = do
    csr64 ←
        lift (opt_bind (env.parse_text payload) (decode_one "csr"))
          (acme_error err_malformed "invalid finalize payload")
    der ← lift (env.decode_url csr64) (acme_error err_malformed "invalid CSR encoding")
    csr ← lift (env.parse_csr der) (acme_error err_malformed "invalid CSR: ")
    (λ w.
        if env.csr_signed csr
        then (ok csr, w)
        else (err (acme_error err_malformed "CSR signature invalid"), w))

  abbrev pub finalized : Request → String → Order → Order
  finalized r cert_id order = record order {
    status = order_valid;
    certificate_url = acme_base_url r <> "/acme/cert/" <> cert_id;
  }

  abbrev pub order_summary : Order → Json
  order_summary o = obj (
      field "status" (str o.status) (
        field "finalize" (str o.finalize_url) (
          field "certificate" (str o.certificate_url) (
            field "identifiers" (arr (encode_items encode_identifier o.identifiers))
              (field "expires" (stamp o.expires_at) end)))))

  -- The certificate is issued and kept, and the order names it. The error of `SaveOrder` is dropped.
  unfoldable pub issue : Request → Order → Csr → Exec Response Response
  issue r order csr = do
    cert_pem ←
        or_else (sign_order_csr env csr order)
          (λ e. http_error ("failed to sign certificate: " <> e) 500)
    cert_id ← or_else (save_certificate env cert_pem) (λ _. http_error "storage error" 500)
    or_zero tt (save_order env (finalized r cert_id order))
    pure (json_response 200 (order_summary (finalized r cert_id order)))

  -- What the signed request says: the account that signed it, and the certificate request.
  unfoldable pub verified_csr : Request → Exec Response (Account × Csr)
  verified_csr r = do
    (body, h) ← read_header env finalize_texts decode_raw decode_kid_header r
    (acc, payload) ← authenticate env h.kid body
    csr ← read_csr payload
    pure (acc, csr)

  -- ACMEFinalizeHandler
  unfoldable pub finalize_handler : Request → World → Response × World
  finalize_handler r = with_nonce env (do
    require_post method_refused r
    require_id (id_after "/acme/finalize/" r) "missing order id"
    order ←
        or_else (load_order env (id_after "/acme/finalize/" r))
          (λ _. acme_error err_not_found "order not found")
    (acc, csr) ← verified_csr r
    issue r order csr)

  -- ACMECertHandler
  unfoldable pub cert_handler : Request → World → Response × World
  cert_handler r = with_nonce env (do
    require_id (id_after "/acme/cert/" r) "missing cert id"
    pem ←
        or_else (load_certificate env (id_after "/acme/cert/" r))
          (λ _. acme_error err_not_found "certificate not found")
    pure (record {
      status = 200;
      content_type = "application/pem-certificate-chain";
      location = "";
      link = "";
      replay_nonce = "";
      body = plain pem;
    }))
