-- ===== src/Api/Account/Deactivation.antt =====
-- internal/api/acme_handler.go: what deactivating an account does to its later orders.
use ad_pki_ca.Base.{◌≡◌, ◌≢◌, String, eq_iff, arith, inl, inr}
use ad_pki_ca.Env.{Env}
use ad_pki_ca.World.{World, ok}
use ad_pki_ca.World.Laws.{Outcome-cases}
use ad_pki_ca.Acme.Types.{Account, account_deactivated}
use ad_pki_ca.Acme.Storage.{load_account, save_account}
use ad_pki_ca.Acme.Storage.Laws.{load_account-save_account}
use ad_pki_ca.Api.Http.{Request, with_nonce, add_nonce, extract_id}
use ad_pki_ca.Api.Signed.{require_id}
use ad_pki_ca.Api.Account.{id_after, deactivate_account_handler}
use ad_pki_ca.Api.Order.{require_account}
use ad_pki_ca.Api.Order.Acceptance.{require_account_ok}

module _ (env : Env) where
  abbrev named : Request → String
  named r = id_after "/acme/account/deactivate/" r

  abbrev deactivated : Account → Account
  deactivated acc = record acc { status = account_deactivated }

  -- Deactivation answered with 200 has saved the account as deactivated.
  deactivate-saved :
      (r : Request) (w : World) (acc : Account)
      → load_account env (named r) (add_nonce env w).1 ≡ (ok acc, (add_nonce env w).1)
      → (deactivate_account_handler env r w).0.status ≡ 200
      → save_account env (deactivated acc) (add_nonce env w).1
        ≡ (ok tt, (deactivate_account_handler env r w).1)
  unfolding deactivate_account_handler with_nonce require_id
  deactivate-saved r w acc there done =
      elim (Outcome-cases (save_account env (deactivated acc) (add_nonce env w).1).0) [
        | inl (e, k) ↦ absurd (ground (arith, there, done, k))
        | inr (x, k) ↦ ground (arith, there, done, k)
      ]

  -- Once deactivation was answered with 200 for an account that is stored under its own id, no order
  -- request whose `kid` names the account gets past the check of its account.
  pub deactivate-require_account :
      (r : Request) (w v : World) (acc acc' : Account) (kid : String)
      → load_account env (named r) (add_nonce env w).1 ≡ (ok acc, (add_nonce env w).1)
      → acc.id ≡ named r
      → (deactivate_account_handler env r w).0.status ≡ 200
      → extract_id kid "/acme/account/" ≡ named r
      → require_account env kid (deactivate_account_handler env r w).1 ≢ (ok acc', v)
  deactivate-require_account r w v acc acc' kid there own done same passed =
      let (found, valid, still) =
        require_account_ok env kid (deactivate_account_handler env r w).1 v acc' passed in
      let loaded =
        load_account-save_account env (deactivated acc) (add_nonce env w).1
          (deactivate_account_handler env r w).1 (deactivate-saved r w acc there done) in
      ground (arith, found, loaded, own, same, valid, eq_iff "deactivated" "valid")
