-- ===== src/Api/Access.antt =====
-- cmd/ca-server/main.go and internal/api/auth_middleware.go: the routes, and which of them want the
-- token.
pub mod Guard
use ad_pki_ca.Base.{
  Bool, true, false, Option, none, some, List, [], ◌∷◌, String, ◌==◌, if◌then◌else◌, has_prefix,
}
use ad_pki_ca.Env.{Env}
use ad_pki_ca.World.{World}
use ad_pki_ca.Api.Http.{Request, Response, http_error}
use ad_pki_ca.Api.Directory.{directory_handler, new_nonce_handler}
use ad_pki_ca.Api.Account.{new_account_handler, deactivate_account_handler, accounts_list_handler}
use ad_pki_ca.Api.Order.{new_order_handler, order_handler, authz_handler}
use ad_pki_ca.Api.Challenge.{challenge_handler}
use ad_pki_ca.Api.Finalize.{finalize_handler, cert_handler}
use ad_pki_ca.Api.Revoke.{revoke_cert_handler}
use ad_pki_ca.Api.Sign.{sign_handler, sign_from_data_handler}
use ad_pki_ca.Api.Import.{
  import_intermediate_handler, validate_intermediate_handler, import_root_handler,
}
use ad_pki_ca.Api.Crl.{crl_handler}
use ad_pki_ca.Api.Ocsp.{ocsp_handler, clear_ocsp_cache_handler}
use ad_pki_ca.Api.Ntp.{set_ntp_handler}
use ad_pki_ca.Api.System.{system_info_handler}
use ad_pki_ca.Api.Tsa.{tsa_generate_handler, tsa_status_handler, timestamp_handler}

pub data Route : Type 0 where
  sign import_root validate_intermediate import_intermediate crl ocsp ocsp_clear_cache : Route
  sign_from_data system_info system_ntp acme_accounts deactivate_account : Route
  tsa_generate tsa_status timestamp : Route
  directory new_nonce new_account new_order authz challenge finalize cert order revoke_cert : Route

-- The patterns of main.go; one that ends in a slash takes every path below it.
abbrev patterns : List (String × Route)
patterns =
    ("/sign", sign)
    ∷ ("/ca/import-root", import_root)
    ∷ ("/ca/validate-intermediate", validate_intermediate)
    ∷ ("/ca/import-intermediate", import_intermediate)
    ∷ ("/ocsp", ocsp)
    ∷ ("/ocsp/clear-cache", ocsp_clear_cache)
    ∷ ("/sign-from-data", sign_from_data)
    ∷ ("/system/info", system_info)
    ∷ ("/system/ntp", system_ntp)
    ∷ ("/acme/accounts", acme_accounts)
    ∷ ("/tsa/generate", tsa_generate)
    ∷ ("/tsa/status", tsa_status)
    ∷ ("/timestamp", timestamp)
    ∷ ("/acme/directory", directory)
    ∷ ("/acme/new-nonce", new_nonce)
    ∷ ("/acme/new-account", new_account)
    ∷ ("/acme/new-order", new_order)
    ∷ ("/acme/revoke-cert", revoke_cert)
    ∷ []

abbrev subtrees : List (String × Route)
subtrees =
    ("/crl/", crl)
    ∷ ("/acme/account/deactivate/", deactivate_account)
    ∷ ("/acme/authz/", authz)
    ∷ ("/acme/challenge/", challenge)
    ∷ ("/acme/finalize/", finalize)
    ∷ ("/acme/cert/", cert)
    ∷ ("/acme/order/", order)
    ∷ []

find_exact : String → List (String × Route) → Option Route
find_exact path [] = none
find_exact path ((p, route) ∷ rest) = if p == path then some route else find_exact path rest

find_subtree : String → List (String × Route) → Option Route
find_subtree path [] = none
find_subtree path ((p, route) ∷ rest) =
    if has_prefix p path then some route else find_subtree path rest

-- An exact pattern wins over a subtree; no two subtrees overlap.
unfoldable pub route_of : String → Option Route
unfolding find_exact find_subtree
route_of path = elim (find_exact path patterns) [
  | some route ↦ some route
  | none ↦ find_subtree path subtrees
]

-- The routes that main.go wraps in `AuthMiddleware`.
unfoldable pub wants_token : Route → Bool
wants_token timestamp = false
wants_token directory = false
wants_token new_nonce = false
wants_token new_account = false
wants_token new_order = false
wants_token authz = false
wants_token challenge = false
wants_token finalize = false
wants_token cert = false
wants_token order = false
wants_token revoke_cert = false
wants_token _ = true

-- AuthMiddleware, with the value of CA_TOKEN ("" if it is not set).
unfoldable pub auth_middleware :
    String → (Request → World → Response × World) → Request → World → Response × World
auth_middleware token next r w =
    if token == ""
    then next r w
    else if r.ca_token == token
    then next r w
    else (http_error "Unauthorized" 401, w)

module _ (env : Env) where
  unfoldable pub handler : Route → Request → World → Response × World
  handler directory = directory_handler env
  handler new_nonce = new_nonce_handler env
  handler new_account = new_account_handler env
  handler new_order = new_order_handler env
  handler authz = authz_handler env
  handler challenge = challenge_handler env
  handler finalize = finalize_handler env
  handler cert = cert_handler env
  handler order = order_handler env
  handler revoke_cert = revoke_cert_handler env
  handler acme_accounts = accounts_list_handler env
  handler deactivate_account = deactivate_account_handler env
  handler sign = sign_handler env
  handler sign_from_data = sign_from_data_handler env
  handler import_root = import_root_handler env
  handler validate_intermediate = validate_intermediate_handler env
  handler import_intermediate = import_intermediate_handler env
  handler crl = crl_handler env
  handler ocsp = ocsp_handler env
  handler ocsp_clear_cache = clear_ocsp_cache_handler
  handler system_ntp = set_ntp_handler env
  handler tsa_generate = tsa_generate_handler env
  handler tsa_status = tsa_status_handler env
  handler timestamp = timestamp_handler env
  handler system_info = system_info_handler env

  unfoldable pub serve : String → Request → World → Response × World
  unfolding route_of wants_token auth_middleware
  serve token r w = elim (route_of r.path) [
    | none ↦ (http_error "404 page not found" 404, w)
    | some route ↦
        if wants_token route then auth_middleware token (handler route) r w else handler route r w
  ]
