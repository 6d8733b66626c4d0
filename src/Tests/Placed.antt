-- ===== src/Tests/Placed.antt =====
-- The theorem on new-order, at the tests' CA.
use ad_pki_ca.Config.{base_path, base_dir}
use ad_pki_ca.Base.{◌≡◌, refl, List, split_slash}
use ad_pki_ca.Base64.{encode_url}
use ad_pki_ca.Json.{
  get, to_str, to_time, to_fields, to_list, decode_str, omit_list, encode_items, decode_items,
}
use ad_pki_ca.Files.{
  mkdir_all, write_file, read_file, find_file, has_dir, with_parents, path_eq, join, enter_all,
  enter, put_file,
}
use ad_pki_ca.Acme.Types.{Account, Identifier, encode_account, decode_account, decode_identifier}
use ad_pki_ca.Acme.Storage.{
  load_account, read_json, acme_path, account_path, order_path, authz_path, ensure_dir,
  write_string_file, write_content, write_json, save_order, save_authz,
}
use ad_pki_ca.Acme.Account.{new_id, load_account_jwk}
use ad_pki_ca.Acme.Nonce.{consume, has_expired, record_nonce, cleanup, drop_expired}
use ad_pki_ca.Base.{lookup, remove, insert}
use ad_pki_ca.Acme.Order.{
  new_order, new_order_id, new_authorizations, new_authorization, new_authz_id, new_challenge,
  http_challenges, new_challenge_id, new_challenge_token,
}
use ad_pki_ca.Acme.Challenge.{save_challenge_mapping}
use ad_pki_ca.Api.Http.{Request, add_nonce, generate, with_nonce, extract_id}
use ad_pki_ca.Api.Signed.{
  open_header, read_header, spend_nonce, decode_raw, decode_url_header, require_post, verify_body,
}
use ad_pki_ca.Api.Order.{
  verified_order_request, require_account, check_identifiers, check_each, decode_order_request,
  save_mappings, save_authorizations, place_order, new_order_handler,
}
use ad_pki_ca.Api.Order.Acceptance.{IsAuthorised}
use ad_pki_ca.Api.Order.Placement.{IsPlaced, new_order_handler-IsPlaced}
use ad_pki_ca.Tests.{env, world, post}

abbrev order_request : Request
order_request = post "/acme/new-order" "order-request"

order-created : (new_order_handler env order_request world).0.status ≡ 201
unfolding new_order_handler with_nonce add_nonce generate new_id encode_url record_nonce insert
    cleanup drop_expired verified_order_request read_header open_header spend_nonce decode_raw
    decode_url_header get to_str to_fields to_list decode_items consume lookup has_expired remove
    require_post require_account load_account read_json read_file find_file path_eq account_path
    acme_path join base_path base_dir enter_all enter split_slash extract_id decode_account
    encode_account to_time decode_str omit_list encode_items load_account_jwk verify_body
    check_identifiers check_each decode_order_request decode_identifier place_order new_order
    new_order_id new_authorizations new_authorization new_authz_id new_challenge http_challenges
    new_challenge_id new_challenge_token save_authorizations save_authz save_mappings
    save_challenge_mapping save_order ensure_dir write_json write_content write_string_file
    mkdir_all write_file has_dir with_parents put_file order_path authz_path
order-created = refl

new_order_handler-IsPlaced_example :
    (acc : Account) × (is' : List Identifier) × IsAuthorised env order_request
      (add_nonce env world).1
      acc
      is'
    × IsPlaced env order_request acc is'
        (new_order_handler env order_request world).0
        (new_order_handler env order_request world).1
new_order_handler-IsPlaced_example =
    new_order_handler-IsPlaced env order_request world order-created
