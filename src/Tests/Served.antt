-- ===== src/Tests/Served.antt =====
-- The theorems on the handlers, at the tests' CA.
use ad_pki_ca.Config.{base_path, base_dir}
use ad_pki_ca.Base.{◌≡◌, refl, none, [], ◌∷◌, split_slash}
use ad_pki_ca.Base64.{encode_url}
use ad_pki_ca.World.{World, ok, err}
use ad_pki_ca.Json.{
  get, to_str, to_time, to_fields, to_list, decode_str, omit_list, encode_items, decode_items,
}
use ad_pki_ca.Files.{
  mkdir_all, write_file, read_file, find_file, has_dir, with_parents, path_eq, join, enter_all,
  enter, put_file,
}
use ad_pki_ca.Acme.Types.{encode_account, decode_account, decode_identifier}
use ad_pki_ca.Acme.Storage.{
  load_account, read_json, acme_path, account_path, ensure_dir, write_content,
}
use ad_pki_ca.Acme.Account.{new_id, load_account_jwk}
use ad_pki_ca.Acme.Nonce.{consume, has_expired, record_nonce, cleanup, drop_expired}
use ad_pki_ca.Base.{lookup, remove, insert}
use ad_pki_ca.Api.Http.{Request, add_nonce, generate, extract_id}
use ad_pki_ca.Api.Signed.{
  Protected, open_header, read_header, spend_nonce, decode_raw, decode_url_header, require_post,
  verify_body,
}
use ad_pki_ca.Api.Signed.Laws.{bad_nonce, read_header_again}
use ad_pki_ca.Api.Account.{full_texts}
use ad_pki_ca.Api.Order.{
  verified_order_request, require_account, check_identifiers, check_each, decode_order_request,
}
use ad_pki_ca.Api.Order.Acceptance.{IsAuthorised, verified_order_request-IsAuthorised}
use ad_pki_ca.Acme.Storage.{save_account, write_json}
use ad_pki_ca.Api.Http.{with_nonce}
use ad_pki_ca.Api.Signed.{require_id}
use ad_pki_ca.Base.{◌≢◌}
use ad_pki_ca.Api.Account.{deactivate_account_handler}
use ad_pki_ca.Api.Account.Deactivation.{deactivate-require_account}
use ad_pki_ca.Api.Finalize.Ownership.{begun}
use ad_pki_ca.Tests.{env, world, account_1, a_org, post}

abbrev info : Request
info = post "/system/info" ""

abbrev order_request : Request
order_request = post "/acme/new-order" "order-request"

abbrev order_header : Protected
order_header = record { nonce = "n1"; kid = "/acme/account/a1"; jwk = none }

abbrev after_order : World
after_order = (read_header env full_texts decode_raw decode_url_header order_request world).1

order-read :
    read_header env full_texts decode_raw decode_url_header order_request world
    ≡ (ok ("order-request", order_header), after_order)
unfolding read_header open_header spend_nonce decode_raw decode_url_header get to_str to_fields
    consume lookup has_expired remove
order-read = refl

order-spent : lookup "n1" after_order.nonces.nonces ≡ none
unfolding read_header open_header spend_nonce decode_raw decode_url_header get to_str to_fields
    consume lookup has_expired remove
order-spent = refl

read_header_again_example :
    (lookup "n1" after_order.nonces.nonces ≡ none)
    × (read_header env full_texts decode_raw decode_url_header order_request after_order
        ≡ (err bad_nonce, after_order))
read_header_again_example =
    read_header_again env full_texts decode_raw decode_url_header order_request world after_order
      after_order "order-request" order_header order-read order-spent

abbrev taken : World
taken = (verified_order_request env order_request world).1

order-taken : verified_order_request env order_request world ≡ (ok (account_1, a_org ∷ []), taken)
unfolding verified_order_request read_header open_header spend_nonce decode_raw decode_url_header
    get to_str to_fields to_list decode_items consume lookup has_expired remove require_post
    require_account load_account read_json read_file find_file path_eq account_path acme_path join
    base_path base_dir enter_all enter split_slash extract_id decode_account encode_account to_time
    decode_str omit_list encode_items load_account_jwk verify_body check_identifiers check_each
    decode_order_request decode_identifier
order-taken = refl

verified_order_request-IsAuthorised_example :
    IsAuthorised env order_request world account_1 (a_org ∷ [])
verified_order_request-IsAuthorised_example =
    verified_order_request-IsAuthorised env order_request world taken account_1 (a_org ∷ [])
      order-taken

abbrev at_start : World
at_start = begun env world

abbrev deactivation : Request
deactivation = post "/acme/account/deactivate/a1" ""

account-there : load_account env "a1" at_start ≡ (ok account_1, at_start)
unfolding load_account read_json read_file find_file path_eq account_path acme_path join base_path
    base_dir enter_all enter split_slash decode_account encode_account get to_str to_time to_fields
    to_list decode_str decode_items omit_list encode_items add_nonce generate new_id encode_url
    record_nonce insert cleanup drop_expired has_expired
account-there = refl

deactivation-done : (deactivate_account_handler env deactivation world).0.status ≡ 200
unfolding deactivate_account_handler with_nonce require_id save_account ensure_dir write_json
    write_content mkdir_all write_file has_dir with_parents put_file load_account read_json
    read_file find_file path_eq account_path acme_path join base_path base_dir enter_all enter
    split_slash decode_account encode_account get to_str to_time to_fields to_list decode_str
    decode_items omit_list encode_items add_nonce generate new_id encode_url record_nonce insert
    cleanup drop_expired has_expired
deactivation-done = refl

deactivate-require_account_example :
    require_account env "http://ca/acme/account/a1"
      (deactivate_account_handler env deactivation world).1
    ≢ (ok account_1, world)
deactivate-require_account_example =
    deactivate-require_account env deactivation world world account_1 account_1
      "http://ca/acme/account/a1" account-there refl deactivation-done (unfold extract_id in refl)
