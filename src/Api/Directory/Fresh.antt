-- ===== src/Api/Directory/Fresh.antt =====
-- internal/api/acme_handler.go: the nonce that new-nonce hands out.
use ad_pki_ca.Base.{ℕ, ◌-◌, ◌≤◌, ◌≡◌, ◌≢◌, true, arith, Option-cases, inl, inr, String}
use ad_pki_ca.Env.{Env}
use ad_pki_ca.World.{World}
use ad_pki_ca.Acme.Account.{new_id}
use ad_pki_ca.Base64.{encode_url}
use ad_pki_ca.Acme.Nonce.{hour, record_nonce, consume}
use ad_pki_ca.Acme.Nonce.Single.{IsValid, consume-record_nonce, consume-cleanup, operations-IsValid}
use ad_pki_ca.Api.Http.{Request, generate}
use ad_pki_ca.Api.Directory.{new_nonce_handler}

module _ (env : Env) where
  -- Where each nonce stands in the map once, the nonce of a response of new-nonce, unless that is an
  -- error, is accepted at any time up to an hour later, when no call on the nonces came in between.
  pub consume-new_nonce_handler :
      (r : Request) (w : World) (later : ℕ)
      → IsValid w.nonces
      → (new_nonce_handler env r w).0.status ≢ 500
      → w.now ≤ later
      → later - w.now ≤ hour
      → (consume
          (new_nonce_handler env r w).0.replay_nonce
          later
          (new_nonce_handler env r w).1.nonces).0
        ≡ true
  unfolding new_nonce_handler generate new_id
  consume-new_nonce_handler r w later valid fine after soon =
      elim (Option-cases (env.random w.draws 16)) [
        | inl e ↦ absurd (ground (arith, e, fine))
        | inr (bytes, e) ↦
            let k : String = encode_url bytes in
            let kept = (operations-IsValid k w.now w.nonces valid).0 in
            ground (
              arith,
              e,
              consume-record_nonce k w.now later w.nonces soon,
              consume-cleanup k w.now later (record_nonce k w.now w.nonces) kept after,
            )
      ]
