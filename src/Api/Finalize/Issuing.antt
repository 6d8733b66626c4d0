-- ===== src/Api/Finalize/Issuing.antt =====
-- internal/api/acme_handler.go: what finalize has done when it answers 200.
use ad_pki_ca.Base.{◌≡◌, ◌≢◌, String, arith, inl, inr}
use ad_pki_ca.Env.{Env}
use ad_pki_ca.World.{World, Outcome, ok, err}
use ad_pki_ca.World.Laws.{Outcome-cases}
use ad_pki_ca.Acme.Types.{Order, Account}
use ad_pki_ca.Acme.Storage.{load_order, load_account}
use ad_pki_ca.Acme.Account.{load_account_jwk}
use ad_pki_ca.Acme.Sign.{sign_order_csr}
use ad_pki_ca.Acme.Sign.Leaf.{IsLeaf, sign_order_csr-IsLeaf}
use ad_pki_ca.Api.Http.{Request, Response, with_nonce, add_nonce}
use ad_pki_ca.Api.Account.{id_after}
use ad_pki_ca.Api.Signed.{
  Protected, require_post, require_id, decode_raw, decode_kid_header, read_header, authenticate,
  verify_body,
}
use ad_pki_ca.Api.Signed.Laws.{read_header-refuses}
use ad_pki_ca.Api.Finalize.{finalize_texts, read_csr, verified_csr, issue, finalize_handler}
use ad_pki_ca.Api.Finalize.Signing.{IsRequested, verified_csr-IsRequested}

module _ (env : Env) where
  open env use {Csr}

  authenticate-refuses :
      (kid body : String) (w v : World) (e : Response)
      → authenticate env kid body w ≡ (err e, v)
      → e.status ≢ 200
  unfolding authenticate load_account load_account_jwk verify_body
  authenticate-refuses kid body w v e h = ground arith

  read_csr-refuses :
      (payload : String) (w v : World) (e : Response)
      → read_csr env payload w ≡ (err e, v)
      → e.status ≢ 200
  unfolding read_csr
  read_csr-refuses payload w v e h = ground arith

  verified_csr-refuses :
      (r : Request) (w v : World) (e : Response)
      → verified_csr env r w ≡ (err e, v)
      → e.status ≢ 200
  unfolding verified_csr
  verified_csr-refuses r w v e h =
      let read : Outcome Response (String × Protected) × World =
        read_header env finalize_texts decode_raw decode_kid_header r w in
      elim (Outcome-cases read.0) [
        | inl (x, k) ↦ ground (
          arith,
          k,
          h,
          read_header-refuses env finalize_texts decode_raw decode_kid_header r w read.1 x
              (λ i. (k i, read.1)),
        )
        | inr ((body, header), k) ↦
            let by : Outcome Response (Account × String) × World =
              authenticate env header.kid body read.1 in
            elim (Outcome-cases by.0) [
              | inl (x, m) ↦ ground (
                arith,
                k,
                m,
                h,
                authenticate-refuses header.kid body read.1 by.1 x (λ i. (m i, by.1)),
              )
              | inr ((acc, payload), m) ↦
                  let got : Outcome Response Csr × World = read_csr env payload by.1 in
                  elim (Outcome-cases got.0) [
                    | inl (x, n) ↦ ground (
                      arith,
                      k,
                      m,
                      n,
                      h,
                      read_csr-refuses payload by.1 got.1 x (λ i. (n i, got.1)),
                    )
                    | inr (csr, n) ↦ absurd (ground (arith, k, m, n, h))
                  ]
            ]
      ]

  -- What an answer 200 stands for.
  pub record IsFinalized (r : Request) (w : World) : Type 0 where
    pub order : Order
    pub found : (load_order env (id_after "/acme/finalize/" r) w).0 ≡ ok order
    pub account : Account
    pub csr : Csr
    pub requested : IsRequested env r w account csr
    pub chain : String
    pub leaf : IsLeaf env csr (verified_csr env r w).1 chain

  -- Finalize answers 200 only for an order that is stored, to the certificate request in the payload
  -- of a body that carries a fresh nonce and is signed by the stored key of a known account, which bears
  -- its own key's signature; a server certificate for its names was then made of that request.
  pub finalize_handler-IsFinalized :
      (r : Request) (w : World)
      → (finalize_handler env r w).0.status ≡ 200
      → IsFinalized r (add_nonce env w).1
  unfolding finalize_handler with_nonce require_post require_id load_order issue
  finalize_handler-IsFinalized r w h =
      let b : World = (add_nonce env w).1 in
      let id : String = id_after "/acme/finalize/" r in
      elim (Outcome-cases (load_order env id b).0) [
        | inl (e, k) ↦ absurd (ground (arith, k, h))
        | inr (order, k) ↦
            let asked : Outcome Response (Account × Csr) × World = verified_csr env r b in
            elim (Outcome-cases asked.0) [
              | inl (e, m) ↦ absurd (
                  ground (arith, k, m, h, verified_csr-refuses r b asked.1 e (λ i. (m i, asked.1))))
              | inr ((acc, csr), m) ↦
                  let signed : Outcome String String × World =
                    sign_order_csr env csr order asked.1 in
                  elim (Outcome-cases signed.0) [
                    | inl (e, n) ↦ absurd (ground (arith, k, m, n, h))
                    | inr (chain, n) ↦ record {
                      order = order;
                      found = k;
                      account = acc;
                      csr = csr;
                      requested =
                          verified_csr-IsRequested env r b asked.1 acc csr (λ i. (m i, asked.1));
                      chain = chain;
                      leaf =
                          sign_order_csr-IsLeaf env csr order asked.1 signed.1 chain
                            (λ i. (n i, signed.1));
                    }
                  ]
            ]
      ]
