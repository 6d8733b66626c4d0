-- ===== src/Api/Account.antt =====
-- internal/api/acme_handler.go: accounts. The text of an error that is appended to a detail is not
-- modelled.
pub mod Deactivation
use ad_pki_ca.Base.{
  ℕ, Bool, false, Option, none, some, List, [], String, ◌==◌, ◌<>◌, if◌then◌else◌, strip_prefix,
}
use ad_pki_ca.Json.{
  opt_bind, Json, obj, str, arr, field, end, get, to_bool, to_list, to_fields, decode_str,
  encode_items,
}
use ad_pki_ca.Env.{Env}
use ad_pki_ca.World.{World, Exec, pure, fail, reads, lift, or_else, or_zero, ◌>>=◌, ◌>>◌}
use ad_pki_ca.Acme.Types.{Account, account_deactivated, encode_account}
use ad_pki_ca.Acme.Storage.{load_account, save_account, list_accounts}
use ad_pki_ca.Acme.Account.{find_account_by_key, new_account, save_account_key_mapping}
use ad_pki_ca.Api.Http.{
  Request, Response, acme_error, http_error, json_response, err_malformed, err_unauthorized,
  err_not_found, acme_base_url, with_nonce, merge,
}
use ad_pki_ca.Api.Signed.{
  Texts, decode_raw, decode_jwk_header, require_post, require_id, read_header,
}

pub record AccountRequest : Type 0 where
  pub contact : List String
  pub only_return_existing : Bool

unfoldable pub decode_account_request : Json → Option AccountRequest
decode_account_request j = opt_bind (to_fields j) λ fs.
    opt_bind (to_bool (get "termsOfServiceAgreed" fs)) λ agreed.
      opt_bind (to_list decode_str (get "contact" fs)) λ contact.
        opt_bind (to_bool (get "onlyReturnExisting" fs))
          λ only. some (record { contact = contact; only_return_existing = only })

abbrev pub full_texts : Texts
full_texts = record {
  no_body = "failed to read request body";
  no_jws = "invalid JWS structure";
  no_header = "invalid protected header encoding";
}

-- The id behind a route's prefix.
abbrev pub id_after : String → Request → String
id_after prefix r = elim (strip_prefix prefix r.path) [ none ↦ "" | some id ↦ id ]

-- writeAccountResponse
unfoldable pub account_document : Account → String → Json
account_document acc url = obj (
    field "status" (str acc.status) (
      field "contact" (arr (encode_items str acc.contact))
        (field "orders" (str (url <> "/orders")) end)))

abbrev pub account_url : Request → String → String
account_url r id = acme_base_url r <> "/acme/account/" <> id

abbrev pub account_response : ℕ → Request → Account → Response
account_response status r acc =
    record (json_response status (account_document acc (account_url r acc.id))) {
      location = account_url r acc.id;
    }

module _ (env : Env) where
  open env use {Jwk}

  -- An empty payload is the zero request.
  abbrev account_request : String → Option AccountRequest
  account_request payload =
      if payload == ""
      then some (record { contact = []; only_return_existing = false })
      else opt_bind (env.parse_text payload) decode_account_request

  -- new-account up to the verified payload.
  unfoldable pub verified_account_request : Request → Exec Response (Jwk × AccountRequest)
  verified_account_request r = do
    require_post (http_error "method not allowed" 405) r
    (body, h) ← read_header env full_texts decode_raw decode_jwk_header r
    raw ← lift h.jwk (acme_error err_malformed "missing JWK in protected header")
    jwk ← lift (env.unmarshal_jwk raw) (acme_error err_malformed "invalid JWK: ")
    jws ← lift (env.parse_signed body) (acme_error err_malformed "invalid JWS: ")
    payload ←
        lift (env.verify jws jwk) (acme_error err_unauthorized "JWS signature verification failed")
    req ← lift (account_request payload) (acme_error err_malformed "invalid payload")
    pure (jwk, req)

  -- A key that no account has yet.
  unfoldable pub create_account : Request → Jwk → List String → Exec Response Response
  create_account r jwk contact = do
    acc ←
        or_else (new_account env jwk contact)
          (λ _. acme_error err_malformed "failed to create account")
    now ← reads (λ w. w.now)
    let stored : Account = record acc { created_at = now }
    or_else (save_account env stored) (λ _. http_error "storage error" 500)
    or_else (save_account_key_mapping env stored.id jwk) (λ _. http_error "storage error" 500)
    pure (account_response 201 r stored)

  unfoldable pub register : Request → Jwk → AccountRequest → Exec Response Response
  register r jwk req = do
    existing ← or_zero none (find_account_by_key env jwk)
    elim existing [
      | some acc ↦ pure (account_response 200 r acc)
      | none ↦
          if req.only_return_existing
          then fail (acme_error err_not_found "account does not exist")
          else create_account r jwk req.contact
    ]

  -- ACMENewAccountHandler
  unfoldable pub new_account_handler : Request → World → Response × World
  new_account_handler r =
      with_nonce env (do (jwk, req) ← verified_account_request r; register r jwk req)

  -- ACMEAccountHandler
  unfoldable pub account_handler : Request → World → Response × World
  account_handler r = with_nonce env (do
    require_id (id_after "/acme/account/" r) "missing account id"
    acc ←
        or_else (load_account env (id_after "/acme/account/" r))
          (λ _. acme_error err_not_found "account not found")
    pure (json_response 200 (account_document acc (account_url r acc.id))))

  -- ACMEDeactivateAccountHandler
  unfoldable pub deactivate_account_handler : Request → World → Response × World
  deactivate_account_handler r = with_nonce env (do
    require_id (id_after "/acme/account/deactivate/" r) "missing account id"
    acc ←
        or_else (load_account env (id_after "/acme/account/deactivate/" r))
          (λ _. acme_error err_not_found "account not found")
    or_else (save_account env (record acc { status = account_deactivated }))
        (λ _. http_error "storage error" 500)
    pure (json_response 200 (obj (field "status" (str account_deactivated) end))))

  -- ACMEAccountsListHandler, which adds no nonce
  unfoldable pub accounts_list_handler : Request → World → Response × World
  accounts_list_handler r w =
      let (out, w') =
        (do
          accounts ← or_else (list_accounts env) (λ _. http_error "failed to load accounts" 500)
          pure (json_response 200 (arr (encode_items encode_account accounts))))
          w in
      (merge out, w')
