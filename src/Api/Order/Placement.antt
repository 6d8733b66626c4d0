-- ===== src/Api/Order/Placement.antt =====
-- internal/api/acme_handler.go: what new-order leaves behind when it answers "created".
use ad_pki_ca.Base.{◌≡◌, List, String, ◌<>◌, arith, inl, inr}
use ad_pki_ca.Json.{obj, end}
use ad_pki_ca.Env.{Env}
use ad_pki_ca.World.{World, Outcome, Exec, ok, err, pure, or_else, ◌>>◌}
use ad_pki_ca.World.Laws.{>>=-eq-ok, or_else-eq-ok, Outcome-cases}
use ad_pki_ca.Acme.Types.{Account, Identifier, Order, Authorization, order_pending}
use ad_pki_ca.Acme.Storage.{load_order, save_order}
use ad_pki_ca.Acme.Storage.Laws.{load_order-save_order}
use ad_pki_ca.Acme.Order.{new_order}
use ad_pki_ca.Acme.Order.Creation.{new_order_lem}
use ad_pki_ca.Api.Http.{
  Request, Response, http_error, json_response, acme_base_url, with_nonce, add_nonce,
}
use ad_pki_ca.Acme.Storage.{load_account}
use ad_pki_ca.Api.Signed.{
  Protected, require_post, verify_body, decode_raw, decode_url_header, read_header,
}
use ad_pki_ca.Api.Signed.Laws.{read_header-refuses}
use ad_pki_ca.Api.Account.{full_texts}
use ad_pki_ca.Acme.Account.{load_account_jwk}
use ad_pki_ca.Base.{◌≢◌}
use ad_pki_ca.Api.Order.{
  require_account, check_identifiers, order_fields, save_authorizations, place_order,
  verified_order_request, new_order_handler,
}
use ad_pki_ca.Api.Order.Acceptance.{IsAuthorised, verified_order_request-IsAuthorised}

module _ (env : Env) where
  abbrev storage_error : String → Response
  storage_error _ = http_error "storage error" 500

  abbrev created : Request → Order → Response
  created r o = record (json_response 201 (obj (order_fields o end))) {
    location = acme_base_url r <> "/acme/order/" <> o.id;
  }

  abbrev keep : Request → Order → Exec Response Response
  keep r o = or_else (save_order env o) storage_error >> pure (created r o)

  abbrev keep_all : Request → Order × List Authorization → Exec Response Response
  keep_all r (o, l) = or_else (save_authorizations env l) storage_error >> keep r o

  -- The order that the answer's location names is stored: pending, of the account, for the identifiers.
  pub record IsPlaced (r : Request) (acc : Account) (is' : List Identifier) (resp : Response)
      (v : World) : Type 0 where
    pub order : Order
    pub location : resp.location ≡ acme_base_url r <> "/acme/order/" <> order.id
    pub stored : load_order env order.id v ≡ (ok order, v)
    pub account : order.account_id ≡ acc.id
    pub pending : order.status ≡ order_pending
    pub identifiers : order.identifiers ≡ is'

  place_order-IsPlaced :
      (r : Request) (acc : Account) (is' : List Identifier) (w v : World) (resp : Response)
      → place_order env r acc is' w ≡ (ok resp, v)
      → IsPlaced r acc is' resp v
  unfolding place_order
  place_order-IsPlaced r acc is' w v resp h =
      let ((o, l), u, made, h₁) =
        >>=-eq-ok
          (or_else (new_order env acc.id is' (acme_base_url r))
            (λ _. http_error "failed to create order" 500))
          (keep_all r) w v resp h in
      let (x, u', authz_kept, h₂) =
        >>=-eq-ok (or_else (save_authorizations env l) storage_error) (λ _. keep r o) u v resp h₁ in
      let (y, u″, order_kept, h₃) =
        >>=-eq-ok (or_else (save_order env o) storage_error) (λ _. pure (created r o)) u' v resp
          h₂ in
      let new = new_order_lem env acc.id is' (acme_base_url r) w u o l (
        or_else-eq-ok (new_order env acc.id is' (acme_base_url r))
          (λ _. http_error "failed to create order" 500) w u (o, l) made) in
      let (belongs, pending, asked, rest, links) = new in
      let stored =
        load_order-save_order env o u' u″
          (or_else-eq-ok (save_order env o) storage_error u' u″ y order_kept) in
      record {
        order = o;
        location = ground (arith, h₃);
        stored = ground (arith, stored, h₃);
        account = belongs;
        pending = pending;
        identifiers = asked;
      }

  place_order-refuses :
      (r : Request) (acc : Account) (is' : List Identifier) (w v : World) (e : Response)
      → place_order env r acc is' w ≡ (err e, v)
      → e.status ≡ 500
  unfolding place_order
  place_order-refuses r acc is' w v e h =
      let made : Outcome String (Order × List Authorization) × World =
        new_order env acc.id is' (acme_base_url r) w in
      elim (Outcome-cases made.0) [
        | inl (x, k) ↦ ground (arith, k)
        | inr ((o, l), k) ↦ elim (Outcome-cases (save_authorizations env l made.1).0) [
          | inl (x, m) ↦ ground (arith, k, m)
          | inr (x, m) ↦
              elim (Outcome-cases (save_order env o (save_authorizations env l made.1).1).0) [
                | inl (y, n) ↦ ground (arith, k, m, n)
                | inr (y, n) ↦ absurd (ground (arith, k, m, n))
              ]
        ]
      ]

  require_account-refuses :
      (kid : String) (w v : World) (e : Response)
      → require_account env kid w ≡ (err e, v)
      → e.status ≡ 403
  unfolding require_account load_account
  require_account-refuses kid w v e h = ground arith

  verified_order_request-refuses :
      (r : Request) (w v : World) (e : Response)
      → verified_order_request env r w ≡ (err e, v)
      → e.status ≢ 201
  unfolding verified_order_request require_post load_account_jwk check_identifiers verify_body
  verified_order_request-refuses r w v e h =
      let read : Outcome Response (String × Protected) × World =
        read_header env full_texts decode_raw decode_url_header r w in
      elim (Outcome-cases read.0) [
        | inl (x, k) ↦ ground (
          arith,
          k,
          read_header-refuses env full_texts decode_raw decode_url_header r w read.1 x
              (λ i. (k i, read.1)),
        )
        | inr ((body, header), k) ↦ elim (Outcome-cases (require_account env header.kid read.1).0) [
          | inl (x, m) ↦ ground (
            arith,
            k,
            m,
            require_account-refuses header.kid read.1 (require_account env header.kid read.1).1 x
                (λ i. (m i, (require_account env header.kid read.1).1)),
          )
          | inr (acc, m) ↦ ground (arith, k, m)
        ]
      ]

  -- new-order answers 201 only to an authorised request, and then the order that the answer's location
  -- names is stored: pending, of the account that signed, for the identifiers in the payload
  -- that was signed.
  pub new_order_handler-IsPlaced :
      (r : Request) (w : World)
      → (new_order_handler env r w).0.status ≡ 201
      → (acc : Account) × (is' : List Identifier) × IsAuthorised env r (add_nonce env w).1 acc is'
        × IsPlaced r acc is' (new_order_handler env r w).0 (new_order_handler env r w).1
  unfolding new_order_handler with_nonce
  new_order_handler-IsPlaced r w h =
      let b : World = (add_nonce env w).1 in
      elim (Outcome-cases (verified_order_request env r b).0) [
        | inl (e, k) ↦ absurd (
            ground (
              arith,
              k,
              h,
              verified_order_request-refuses r b _ e
                  (λ i. (k i, (verified_order_request env r b).1)),
            ))
        | inr ((acc, is'), k) ↦
            elim (Outcome-cases (place_order env r acc is' (verified_order_request env r b).1).0) [
              | inl (e, m) ↦ absurd (
                  ground (
                    arith,
                    k,
                    m,
                    h,
                    place_order-refuses r acc is' (verified_order_request env r b).1 _ e (λ i.
                        (m i, (place_order env r acc is' (verified_order_request env r b).1).1)),
                  ))
              | inr (resp, m) ↦
                  let u : World = (verified_order_request env r b).1 in
                  let place =
                    place_order-IsPlaced r acc is' u (place_order env r acc is' u).1 resp
                      (λ i. (m i, (place_order env r acc is' u).1)) in
                  (
                    acc,
                    is',
                    verified_order_request-IsAuthorised env r b u acc is' (λ i. (k i, u)),
                    record {
                      order = place.order;
                      location = ground (arith, k, m, place.location);
                      stored = ground (arith, k, place.stored);
                      account = place.account;
                      pending = place.pending;
                      identifiers = place.identifiers;
                    },
                  )
            ]
      ]
