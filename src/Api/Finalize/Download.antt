-- ===== src/Api/Finalize/Download.antt =====
-- internal/acme/sign.go and internal/api/acme_handler.go: a kept certificate and its download.
use ad_pki_ca.Base.{◌≡◌, ◌≢◌, String, ◌<>◌, [], ◌∷◌, arith, eq_iff}
use ad_pki_ca.Env.{Env}
use ad_pki_ca.Files.{text}
use ad_pki_ca.Files.Laws.{path_eq_refl}
use ad_pki_ca.World.{World, ok, pure, ◌>>◌}
use ad_pki_ca.World.Laws.{>>=-eq-ok}
use ad_pki_ca.Acme.Storage.{acme_path, ensure_dir, write_string_file, read_string_file}
use ad_pki_ca.Acme.Storage.Laws.{write_content-Wrote}
use ad_pki_ca.Acme.Account.{new_id}
use ad_pki_ca.Acme.Order.{new_order_id}
use ad_pki_ca.Acme.Sign.{save_certificate, load_certificate}
use ad_pki_ca.Api.Http.{Request, plain, with_nonce, add_nonce, generate}
use ad_pki_ca.Api.Signed.{require_id}
use ad_pki_ca.Api.Account.{id_after}
use ad_pki_ca.Api.Finalize.{cert_handler}

module _ (env : Env) where
  pub load_certificate-save_certificate :
      (pem id : String) (w v : World)
      → save_certificate env pem w ≡ (ok id, v)
      → load_certificate env id v ≡ (ok pem, v)
  unfolding save_certificate load_certificate read_string_file write_string_file
  load_certificate-save_certificate pem id w v h =
      let (id', u, drew, h₁) =
        >>=-eq-ok (new_order_id env)
          (λ id.
            (ensure_dir env (acme_path env ("certs" ∷ []))
              >> (write_string_file env (acme_path env ("certs" ∷ (id <> ".pem") ∷ [])) pem
                  >> pure id)))
          w v id h in
      let (x, u', made, h₂) =
        >>=-eq-ok (ensure_dir env (acme_path env ("certs" ∷ [])))
          (λ _.
            (write_string_file env (acme_path env ("certs" ∷ (id' <> ".pem") ∷ [])) pem
              >> pure id'))
          u v id h₁ in
      let (y, u″, wrote, h₃) =
        >>=-eq-ok (write_string_file env (acme_path env ("certs" ∷ (id' <> ".pem") ∷ [])) pem)
          (λ _. pure id') u' v id h₂ in
      let there =
        write_content-Wrote env (acme_path env ("certs" ∷ (id' <> ".pem") ∷ [])) (text pem) u' u″
          wrote in
      ground (
        arith,
        there.files (acme_path env ("certs" ∷ (id' <> ".pem") ∷ [])),
        path_eq_refl (acme_path env ("certs" ∷ (id' <> ".pem") ∷ [])),
        h₃,
      )

  add_nonce-fs : (w : World) → (add_nonce env w).1.fs ≡ w.fs
  unfolding add_nonce generate new_id
  add_nonce-fs w = ground arith

  -- The certificate that was kept under a name, which is not empty, is what the download of that name
  -- answers, with status 200, in any state with the files as they were then.
  pub cert_handler-save_certificate :
      (r : Request) (pem id : String) (w v u : World)
      → save_certificate env pem w ≡ (ok id, v)
      → id ≢ ""
      → id_after "/acme/cert/" r ≡ id
      → u.fs ≡ v.fs
      → ((cert_handler env r u).0.status ≡ 200) × ((cert_handler env r u).0.body ≡ plain pem)
  unfolding cert_handler with_nonce require_id load_certificate read_string_file
  cert_handler-save_certificate r pem id w v u h named asked same =
      let loaded = load_certificate-save_certificate pem id w v h in
      (
        ground (arith, loaded, add_nonce-fs u, same, asked, eq_iff id ""),
        ground (arith, loaded, add_nonce-fs u, same, asked, eq_iff id ""),
      )
