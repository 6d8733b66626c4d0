-- ===== src/Api/Order/Acceptance.antt =====
-- internal/api/acme_handler.go: who can place an order, and for what.
use ad_pki_ca.Base.{
  none, some, ◌≡◌, ◌≢◌, List, [], ◌∷◌, String, All, eq_iff, arith, inl, inr, Option-cases,
}
use ad_pki_ca.Json.{opt_bind, Json, Fields, get, to_fields, to_list}
use ad_pki_ca.Env.{Env}
use ad_pki_ca.World.{World, ok}
use ad_pki_ca.World.Laws.{Outcome-cases}
use ad_pki_ca.Acme.Types.{Account, Identifier, account_valid, decode_identifier}
use ad_pki_ca.Acme.Storage.{load_account, read_json}
use ad_pki_ca.Acme.Account.{load_account_jwk}
use ad_pki_ca.Acme.Nonce.Single.{IsFresh}
use ad_pki_ca.Api.Http.{Request, extract_id}
use ad_pki_ca.Api.Account.{full_texts}
use ad_pki_ca.Api.Signed.{
  Protected, decode_raw, decode_url_header, open_header, read_header, require_post, verify_body,
}
use ad_pki_ca.Api.Signed.Laws.{read_header_ok, spend_nonce_ok}
use ad_pki_ca.Api.Order.{
  decode_order_request, check_each, check_identifiers, require_account, verified_order_request,
}

check_each-All :
    (is' : List Identifier)
    → check_each is' ≡ none
    → All (λ (i : Identifier). (i.kind ≡ "dns") × (i.value ≢ "")) is'
unfolding check_each
check_each-All [] h = tt
check_each-All (i ∷ is') h =
    ground (arith, check_each-All is', eq_iff i.kind "dns", eq_iff i.value "")

module _ (env : Env) where
  pub require_account_ok :
      (kid : String) (w v : World) (acc : Account)
      → require_account env kid w ≡ (ok acc, v)
      → (load_account env (extract_id kid "/acme/account/") w ≡ (ok acc, w))
        × (acc.status ≡ account_valid)
        × (v ≡ w)
  unfolding require_account load_account
  require_account_ok kid w v acc h = ground (arith, eq_iff acc.status account_valid)

  verify_body_ok :
      (refusal body : String) (jwk : env.Jwk) (w v : World) (payload : String)
      → verify_body env refusal body jwk w ≡ (ok payload, v)
      → (jws : env.Jws) × (env.parse_signed body ≡ some jws)
        × (env.verify jws jwk ≡ some payload)
        × (v ≡ w)
  unfolding verify_body
  verify_body_ok refusal body jwk w v payload h = ground arith

  -- The identifiers in the field "identifiers" of a payload.
  pub record IsAskedIn (payload : String) (is' : List Identifier) : Type 0 where
    pub doc : Json
    pub fields : Fields
    pub read : env.parse_text payload ≡ some doc
    pub struct : to_fields doc ≡ some fields
    pub field : to_list decode_identifier (get "identifiers" fields) ≡ some is'

  asked_in :
      (payload : String) (is' : List Identifier)
      → opt_bind (env.parse_text payload) decode_order_request ≡ some is'
      → IsAskedIn payload is'
  unfolding decode_order_request
  asked_in payload is' h = elim (Option-cases (env.parse_text payload)) [
    | inl n ↦ absurd (ground (arith, n))
    | inr (doc, a) ↦ elim (Option-cases (to_fields doc)) [
      | inl n ↦ absurd (ground (arith, a, n))
      | inr (fields, b) ↦
          elim (Option-cases (to_list decode_identifier (get "identifiers" fields))) [
            | inl n ↦ absurd (ground (arith, a, b, n))
            | inr (got, c) ↦ record {
              doc = doc;
              fields = fields;
              read = a;
              struct = b;
              field = ground (arith, a, b, c);
            }
          ]
    ]
  ]

  -- What stands behind an order request that was taken.
  pub record IsAuthorised (r : Request) (w : World) (acc : Account) (is' : List Identifier)
      : Type 0 where
    pub posted : r.method ≡ "POST"
    pub body : String
    pub header : Protected
    pub opened : (open_header env full_texts decode_raw decode_url_header r w).0 ≡ ok (body, header)
    pub fresh : IsFresh header.nonce w.now w.nonces
    pub known : (load_account env (extract_id header.kid "/acme/account/") w).0 ≡ ok acc
    pub valid : acc.status ≡ account_valid
    pub signed :
        (jwk : env.Jwk) × (jws : env.Jws) × (payload : String) × (env.parse_jwk acc.public_key_jwk
          ≡ some jwk)
        × (env.parse_signed body ≡ some jws)
        × (env.verify jws jwk ≡ some payload)
        × IsAskedIn payload is'
    pub asked : is' ≢ []
    pub names : All (λ (i : Identifier). (i.kind ≡ "dns") × (i.value ≢ "")) is'

  -- The states after the header was read, and after the account was.
  module _ (r : Request) (w : World) where
    abbrev after_header : World
    after_header = (read_header env full_texts decode_raw decode_url_header r w).1

    abbrev after_account : String → World
    after_account kid = (require_account env kid after_header).1

  abbrev refusal : String
  refusal = "JWS signature verification failed"

  authorised :
      (r : Request) (w : World) (body : String) (header : Protected) (acc : Account)
      (is' : List Identifier) (jwk : env.Jwk) (payload : String)
      → (read_header env full_texts decode_raw decode_url_header r w).0 ≡ ok (body, header)
      → (require_account env header.kid (after_header r w)).0 ≡ ok acc
      → env.parse_jwk acc.public_key_jwk ≡ some jwk
      → (verify_body env refusal body jwk (after_account r w header.kid)).0 ≡ ok payload
      → (acc' : Account) → acc' ≡ acc
      → r.method ≡ "POST"
      → opt_bind (env.parse_text payload) decode_order_request ≡ some is'
      → is' ≢ []
      → check_each is' ≡ none
      → IsAuthorised r w acc' is'
  unfolding load_account read_json
  authorised r w body header acc is' jwk payload took known key verified acc' same posted said asked
        names =
      let (opened, spent) =
        read_header_ok env full_texts decode_raw decode_url_header r w (after_header r w) body
          header (λ i. (took i, after_header r w)) in
      let (named, fresh, later) = spend_nonce_ok header.nonce w (after_header r w) spent in
      let (found, valid, still) =
        require_account_ok header.kid (after_header r w) (after_account r w header.kid) acc
          (λ i. (known i, after_account r w header.kid)) in
      let (jws, parsed, checked, end) =
        verify_body_ok refusal body jwk (after_account r w header.kid)
          (verify_body env refusal body jwk (after_account r w header.kid)).1 payload
          (λ i.
            (verified i, (verify_body env refusal body jwk (after_account r w header.kid)).1)) in
      record {
        posted = posted;
        body = body;
        header = header;
        opened = opened;
        fresh = fresh;
        known = ground (arith, found, later, same);
        valid = ground (arith, same, valid);
        signed = (
          jwk,
          jws,
          payload,
          ground (arith, same, key),
          parsed,
          checked,
          asked_in payload is' said,
        );
        asked = asked;
        names = check_each-All is' names;
      }

  -- Only a request that is a POST, carries a fresh nonce, and is signed by the stored key of a known
  -- account with status "valid" is taken for an order, and only for identifiers of type "dns" with a
  -- name, of which there is at least one.
  pub verified_order_request-IsAuthorised :
      (r : Request) (w v : World) (acc : Account) (is' : List Identifier)
      → verified_order_request env r w ≡ (ok (acc, is'), v)
      → IsAuthorised r w acc is'
  unfolding verified_order_request require_post load_account_jwk check_identifiers
  verified_order_request-IsAuthorised r w v acc is' h =
      elim (Outcome-cases (read_header env full_texts decode_raw decode_url_header r w).0) [
        | inl (e, refused) ↦ absurd (ground arith)
        | inr ((body, header), took) ↦
            elim (Outcome-cases (require_account env header.kid (after_header r w)).0) [
              | inl (e, refused) ↦ absurd (ground arith)
              | inr (acc', known) ↦ elim (Option-cases (env.parse_jwk acc'.public_key_jwk)) [
                | inl no_key ↦ absurd (ground arith)
                | inr (jwk, key) ↦
                    elim (Outcome-cases
                      (verify_body env refusal body jwk (after_account r w header.kid)).0) [
                        | inl (e, refused) ↦ absurd (ground arith)
                        | inr (payload, verified) ↦
                            authorised r w body header acc' is' jwk payload took known key verified
                              acc (ground arith) (ground (arith, eq_iff r.method "POST"))
                              (ground arith) (ground arith) (ground arith)
                      ]
              ]
            ]
      ]
