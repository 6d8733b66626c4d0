-- ===== src/Api/Order.antt =====
-- internal/api/acme_handler.go: new-order, and the views of orders and authorizations.
pub mod Acceptance
pub mod Placement
use ad_pki_ca.Base.{
  ℕ, Bool, true, false, Option, none, some, List, [], ◌∷◌, String, ◌==◌, ◌<>◌, if◌then◌else◌,
}
use ad_pki_ca.Json.{
  opt_bind, Json, Fields, obj, str, stamp, arr, field, end, get, to_str, to_list, to_fields,
  encode_items, omit_time, omit_str,
}
use ad_pki_ca.Env.{Env}
use ad_pki_ca.World.{World, Exec, ok, err, pure, lift, or_else, ◌>>=◌, ◌>>◌}
use ad_pki_ca.Acme.Types.{
  Account, Identifier, Order, Challenge, Authorization, account_valid, encode_identifier,
  decode_identifier,
}
use ad_pki_ca.Acme.Storage.{load_account, load_order, load_authz, save_order, save_authz}
use ad_pki_ca.Acme.Account.{load_account_jwk}
use ad_pki_ca.Acme.Order.{new_order}
use ad_pki_ca.Acme.Challenge.{save_challenge_mapping}
use ad_pki_ca.Api.Http.{
  Request, Response, acme_error, http_error, json_response, err_malformed, err_unauthorized,
  err_not_found, acme_base_url, with_nonce, extract_id,
}
use ad_pki_ca.Api.Signed.{
  Protected, decode_raw, decode_url_header, require_post, require_id, read_header, verify_body,
}
use ad_pki_ca.Api.Account.{full_texts, id_after}

-- identifiers, notBefore, notAfter; the last two are decoded and not used.
unfoldable pub decode_order_request : Json → Option (List Identifier)
decode_order_request j = opt_bind (to_fields j) λ fs.
    opt_bind (to_list decode_identifier (get "identifiers" fs)) λ identifiers.
      opt_bind (to_str (get "notBefore" fs))
        λ not_before. opt_bind (to_str (get "notAfter" fs)) λ not_after. some identifiers

-- The loop over the identifiers: the first that is refused, with its text.
unfoldable pub check_each : List Identifier → Option String
check_each [] = none
check_each (i ∷ is') =
    let rest = check_each is' in
    if i.kind == "dns"
    then (if i.value == "" then some "identifier value must not be empty" else rest)
    else some ("only dns identifiers supported, got: " <> i.kind)

unfoldable pub check_identifiers : List Identifier → Exec Response (Unit {0})
unfolding check_each
check_identifiers [] w = (err (acme_error err_malformed "no identifiers in order"), w)
check_identifiers (i ∷ is') w = elim (check_each (i ∷ is')) [
  | none ↦ (ok tt, w)
  | some detail ↦ (err (acme_error err_malformed detail), w)
]

abbrev order_fields : Order → Fields → Fields
order_fields o rest = field "status" (str o.status) (
    field "expires" (stamp o.expires_at) (
      field "identifiers" (arr (encode_items encode_identifier o.identifiers)) (
        field "authorizations" (arr (encode_items str o.authorizations))
          (field "finalize" (str o.finalize_url) rest))))

module _ (env : Env) where
  -- The account of `kid`, if it is valid.
  unfoldable pub require_account : String → Exec Response Account
  require_account kid = do
    (λ w.
        if kid == ""
        then (err (acme_error err_unauthorized "missing kid in protected header"), w)
        else (ok tt, w))
    (λ w.
        if extract_id kid "/acme/account/" == ""
        then (err (acme_error err_unauthorized "invalid kid format"), w)
        else (ok tt, w))
    acc ←
        or_else (load_account env (extract_id kid "/acme/account/"))
          (λ _. acme_error err_unauthorized "account not found or not valid")
    (λ w.
        if acc.status == account_valid
        then (ok acc, w)
        else (err (acme_error err_unauthorized "account not found or not valid"), w))

  -- new-order up to the verified identifiers, with the account that asked.
  unfoldable pub verified_order_request : Request → Exec Response (Account × List Identifier)
  verified_order_request r = do
    require_post (http_error "method not allowed" 405) r
    (body, h) ← read_header env full_texts decode_raw decode_url_header r
    acc ← require_account h.kid
    jwk ←
        or_else (load_account_jwk env acc)
          (λ _. acme_error err_unauthorized "failed to load account key")
    payload ← verify_body env "JWS signature verification failed" body jwk
    identifiers ←
        lift (opt_bind (env.parse_text payload) decode_order_request)
          (acme_error err_malformed "invalid order payload")
    check_identifiers identifiers
    pure (acc, identifiers)

  unfoldable pub save_mappings : String → List Challenge → Exec String (Unit {0})
  save_mappings authz_id [] = pure tt
  save_mappings authz_id (c ∷ cs) = do
    save_challenge_mapping env c.id authz_id
    save_mappings authz_id cs

  unfoldable pub save_authorizations : List Authorization → Exec String (Unit {0})
  save_authorizations [] = pure tt
  save_authorizations (a ∷ as') = do
    save_authz env a
    save_mappings a.id a.challenges
    save_authorizations as'

  unfoldable pub place_order : Request → Account → List Identifier → Exec Response Response
  place_order r acc identifiers = do
    (order, authz_list) ←
        or_else (new_order env acc.id identifiers (acme_base_url r))
          (λ _. http_error "failed to create order" 500)
    or_else (save_authorizations authz_list) (λ _. http_error "storage error" 500)
    or_else (save_order env order) (λ _. http_error "storage error" 500)
    pure (record (json_response 201 (obj (order_fields order end))) {
      location = acme_base_url r <> "/acme/order/" <> order.id;
    })

  -- ACMENewOrderHandler
  unfoldable pub new_order_handler : Request → World → Response × World
  new_order_handler r =
      with_nonce env
        (do (acc, identifiers) ← verified_order_request r; place_order r acc identifiers)

  -- ACMEOrderHandler
  unfoldable pub order_handler : Request → World → Response × World
  order_handler r = with_nonce env (do
    require_id (id_after "/acme/order/" r) "missing order id"
    order ←
        or_else (load_order env (id_after "/acme/order/" r))
          (λ _. acme_error err_not_found "order not found")
    pure (
        json_response 200 (
          obj (
            order_fields order (
              if order.certificate_url == ""
              then end
              else field "certificate"
                  (str (
                    acme_base_url r
                    <> "/acme/cert/"
                    <> extract_id order.certificate_url "/acme/cert/"))
                  end)))))

  abbrev challenge_view : String → Challenge → Json
  challenge_view base c = obj (
      field "type" (str c.kind) (
        field "status" (str c.status) (
          field "token" (str c.token) (
            field "url" (str (base <> "/acme/challenge/" <> c.id))
              (omit_time "validated" c.validated_at end)))))

  -- ACMEAuthzHandler
  unfoldable pub authz_handler : Request → World → Response × World
  authz_handler r = with_nonce env (do
    require_id (id_after "/acme/authz/" r) "missing authz id"
    authz ←
        or_else (load_authz env (id_after "/acme/authz/" r))
          (λ _. acme_error err_not_found "authorization not found")
    pure (
        json_response 200 (
          obj (
            field "status" (str authz.status) (
              field "expires" (stamp authz.expires_at) (
                field "identifier" (encode_identifier authz.identifier) (
                  field "challenges"
                    (arr (encode_items (challenge_view (acme_base_url r)) authz.challenges))
                    end)))))))
