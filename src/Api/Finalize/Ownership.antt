-- ===== src/Api/Finalize/Ownership.antt =====
-- internal/api/acme_handler.go and internal/acme/sign.go: what finalize asks of the order.
use ad_pki_ca.Base.{◌≡◌, ◌≢◌, String, eq_iff, arith}
use ad_pki_ca.Env.{Env}
use ad_pki_ca.World.{World, ok}
use ad_pki_ca.Acme.Types.{Order, Account}
use ad_pki_ca.Acme.Storage.{load_order}
use ad_pki_ca.Acme.Sign.{sign_order_csr, save_certificate}
use ad_pki_ca.Api.Http.{Request, json_response, with_nonce, add_nonce}
use ad_pki_ca.Api.Account.{id_after}
use ad_pki_ca.Api.Signed.{require_post, require_id}
use ad_pki_ca.Api.Finalize.{verified_csr, issue, finalized, order_summary, finalize_handler}

module _ (env : Env) where
  open env use {Csr}

  -- What is signed for an order does not depend on its status or its identifiers, but only on the
  -- account that it names, which the notice to the backend has.
  pub sign_order_csr-order :
      (csr : Csr) (o o' : Order) (w : World)
      → o.account_id ≡ o'.account_id
      → sign_order_csr env csr o w ≡ sign_order_csr env csr o' w
  unfolding sign_order_csr
  sign_order_csr-order csr o o' w h i = sign_order_csr env csr (record o { account_id = h i }) w

  -- The state in which the handler's own steps begin.
  abbrev pub begun : World → World
  begun w = (add_nonce env w).1

  -- How finalize answers when none of its steps fails.
  pub finalize_issued :
      (r : Request) (w w₁ w₂ w₃ : World) (o : Order) (acc : Account) (csr : Csr)
      (pem cert_id : String)
      → r.method ≡ "POST"
      → id_after "/acme/finalize/" r ≢ ""
      → load_order env (id_after "/acme/finalize/" r) (begun w) ≡ (ok o, begun w)
      → verified_csr env r (begun w) ≡ (ok (acc, csr), w₁)
      → sign_order_csr env csr o w₁ ≡ (ok pem, w₂)
      → save_certificate env pem w₂ ≡ (ok cert_id, w₃)
      → (finalize_handler env r w).0
        ≡ record (json_response 200 (order_summary env (finalized env r cert_id o))) {
          replay_nonce = (add_nonce env w).0;
        }
  unfolding finalize_handler with_nonce require_post require_id issue
  finalize_issued r w w₁ w₂ w₃ o acc csr pem cert_id posted named loaded verified signed kept =
      ground (arith, eq_iff r.method "POST", eq_iff (id_after "/acme/finalize/" r) "")
