-- ===== src/Api/Directory.antt =====
-- internal/api/acme_handler.go: the directory and new-nonce.
pub mod Fresh
use ad_pki_ca.Base.{ℕ, false, String, ◌==◌, ◌<>◌, if◌then◌else◌}
use ad_pki_ca.Json.{Json, obj, str, bool, arr, nil, field, end}
use ad_pki_ca.Env.{Env}
use ad_pki_ca.World.{World, ok, err}
use ad_pki_ca.Api.Http.{
  Request, Response, json_response, http_error, acme_base_url, generate, add_nonce, nothing,
}

unfoldable pub directory : String → Json
directory base = obj (
    field "newNonce" (str (base <> "/acme/new-nonce")) (
      field "newAccount" (str (base <> "/acme/new-account")) (
        field "newOrder" (str (base <> "/acme/new-order")) (
          field "revokeCert" (str (base <> "/acme/revoke-cert")) (
            field "keyChange" (str (base <> "/acme/key-change")) (
              field "meta"
                (obj (
                  field "termsOfService" (str (base <> "/acme/terms")) (
                    field "website" (str base) (
                      field "caaIdentities" (arr nil)
                        (field "externalAccountRequired" (bool false) end)))))
                end))))))

module _ (env : Env) where
  -- ACMEDirectoryHandler
  unfoldable pub directory_handler : Request → World → Response × World
  unfolding directory
  directory_handler r w =
      let (nonce, w') = add_nonce env w in
      (record (json_response 200 (directory (acme_base_url r))) { replay_nonce = nonce }, w')

  abbrev empty_response : ℕ → String → Response
  empty_response status nonce = record {
    status = status;
    content_type = "";
    location = "";
    link = "";
    replay_nonce = nonce;
    body = nothing;
  }

  -- ACMENewNonceHandler
  unfoldable pub new_nonce_handler : Request → World → Response × World
  new_nonce_handler r w =
      let (out, w') = generate env w in
      elim out [
        | err _ ↦ (http_error "failed to generate nonce" 500, w')
        | ok nonce ↦ (empty_response (if r.method == "HEAD" then 200 else 204) nonce, w')
      ]
