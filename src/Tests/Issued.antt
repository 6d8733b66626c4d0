-- ===== src/Tests/Issued.antt =====
-- The theorems on finalize and on issued certificates, at the tests' CA.
use ad_pki_ca.Acme.Sign.Notice.{IsAnnounced, IsUntold, sign_order_csr-notices}
use ad_pki_ca.Config.{base_path, base_dir}
use ad_pki_ca.Base.{◌≡◌, refl, ◌<>◌, [], ◌∷◌, String, split_slash, eq_iff, arith, ◌⊎◌}
use ad_pki_ca.Base64.{encode_url}
use ad_pki_ca.Hex.{to_hex}
use ad_pki_ca.World.{World, Outcome, ok, err}
use ad_pki_ca.Json.{
  get, to_str, to_num, to_time, to_time?, to_fields, to_list, decode_str, omit_str, omit_time,
  omit_list, encode_items, decode_items,
}
use ad_pki_ca.Files.{
  mkdir_all, write_file, read_file, find_file, has_dir, with_parents, path_eq, join, enter_all,
  enter, put_file,
}
use ad_pki_ca.Acme.Types.{
  encode_order, decode_order, encode_account, decode_account, encode_identifier, decode_identifier,
}
use ad_pki_ca.Acme.Storage.{
  load_order, load_account, read_json, acme_path, order_path, account_path, ensure_dir,
  write_string_file, write_content,
}
use ad_pki_ca.Acme.Account.{new_id, load_account_jwk}
use ad_pki_ca.Acme.Nonce.{consume, has_expired, record_nonce, cleanup, drop_expired}
use ad_pki_ca.Base.{lookup, remove, insert}
use ad_pki_ca.Acme.Order.{new_order_id}
use ad_pki_ca.Ca.Settings.{fetch_settings, decode_settings}
use ad_pki_ca.Acme.Settings.{backend_url, fetch_acme_settings}
use ad_pki_ca.Acme.Sign.{
  notify_laravel, notice, sign_order_csr, save_certificate, effective_settings,
  active_intermediate_id,
}
use ad_pki_ca.Ca.Loader.{read_bytes, load_ca_from_pem, parse_private_key}
use ad_pki_ca.Ca.Sign.{sign_csr, random_serial, usage_of, template}
use ad_pki_ca.Ca.Issued.{store_certificate, write_bytes, write_optional, safe_name}
use ad_pki_ca.Ca.Chain.{build_chain}
use ad_pki_ca.Api.Http.{Request, add_nonce, generate, extract_id}
use ad_pki_ca.Api.Signed.{
  open_header, read_header, spend_nonce, decode_raw, decode_kid_header, verify_body, authenticate,
}
use ad_pki_ca.Api.Account.{id_after}
use ad_pki_ca.Api.Finalize.{verified_csr, read_csr, decode_one, finalize_handler}
use ad_pki_ca.Api.Finalize.Signing.{IsRequested, verified_csr-IsRequested}
use ad_pki_ca.Ca.Issued.{issued_dir}
use ad_pki_ca.Ca.Issued.Inside.{issued_dir_lem}
use ad_pki_ca.Api.Finalize.Issuing.{IsFinalized, finalize_handler-IsFinalized}
use ad_pki_ca.Acme.Sign.Leaf.{IsLeaf, sign_order_csr-IsLeaf}
use ad_pki_ca.Base.{ap}
use ad_pki_ca.Api.Http.{Response}
use ad_pki_ca.Api.Finalize.Ownership.{begun, finalize_issued}
use ad_pki_ca.Tests.{env, world, order_1, account_2, post}

abbrev finalize_request : Request
finalize_request = post "/acme/finalize/o1" "finalize-request"

abbrev text_in : Outcome String String → String
text_in (ok s) = s
text_in (err e) = ""

abbrev at_start : World
at_start = begun env world

abbrev verified : World
verified = (verified_csr env finalize_request at_start).1

abbrev signed : Outcome String String × World
signed = sign_order_csr env "csr-1" order_1 verified

abbrev kept : Outcome String String × World
kept = save_certificate env (text_in signed.0) signed.1

order-loaded :
    load_order env (id_after "/acme/finalize/" finalize_request) at_start ≡ (ok order_1, at_start)
unfolding load_order read_json read_file find_file path_eq order_path acme_path join base_path
    base_dir enter_all enter split_slash decode_order encode_order get to_str to_time to_time?
    to_fields to_list decode_str omit_str omit_time encode_items decode_items encode_identifier
    decode_identifier add_nonce generate new_id encode_url record_nonce insert cleanup drop_expired
    has_expired
order-loaded = refl

csr-verified : verified_csr env finalize_request at_start ≡ (ok (account_2, "csr-1"), verified)
unfolding verified_csr read_header open_header spend_nonce decode_raw decode_kid_header get to_str
    to_fields to_list decode_items consume lookup has_expired remove load_account read_json
    read_file find_file path_eq account_path acme_path join base_path base_dir enter_all enter
    split_slash extract_id decode_account encode_account to_time decode_str omit_list encode_items
    load_account_jwk verify_body authenticate read_csr decode_one add_nonce generate new_id
    encode_url record_nonce insert cleanup drop_expired
csr-verified = refl

csr-signed : sign_order_csr env "csr-1" order_1 verified ≡ (ok (text_in signed.0), signed.1)
unfolding sign_order_csr effective_settings active_intermediate_id fetch_settings decode_settings
    to_num backend_url fetch_acme_settings notify_laravel notice sign_csr read_bytes
    load_ca_from_pem parse_private_key random_serial usage_of template to_hex store_certificate
    write_bytes write_optional safe_name build_chain verified_csr read_header open_header
    spend_nonce decode_raw decode_kid_header get to_str to_fields to_list decode_items consume
    lookup has_expired remove load_account read_json read_file find_file path_eq account_path
    acme_path join base_path base_dir enter_all enter split_slash extract_id decode_account
    encode_account to_time decode_str omit_list encode_items load_account_jwk verify_body
    authenticate read_csr decode_one add_nonce generate new_id encode_url record_nonce insert
    cleanup drop_expired mkdir_all write_file has_dir with_parents put_file
csr-signed = refl

chain-kept : save_certificate env (text_in signed.0) signed.1 ≡ (ok (text_in kept.0), kept.1)
unfolding save_certificate new_order_id ensure_dir write_string_file write_content sign_order_csr
    effective_settings active_intermediate_id fetch_settings decode_settings to_num backend_url
    fetch_acme_settings notify_laravel notice sign_csr read_bytes load_ca_from_pem parse_private_key
    random_serial usage_of template to_hex store_certificate write_bytes write_optional safe_name
    build_chain verified_csr read_header open_header spend_nonce decode_raw decode_kid_header get
    to_str to_fields to_list decode_items consume lookup has_expired remove load_account read_json
    read_file find_file path_eq account_path acme_path join base_path base_dir enter_all enter
    split_slash extract_id decode_account encode_account to_time decode_str omit_list encode_items
    load_account_jwk verify_body authenticate read_csr decode_one add_nonce generate new_id
    encode_url record_nonce insert cleanup drop_expired mkdir_all write_file has_dir with_parents
    put_file
chain-kept = refl

verified_csr-IsRequested_example : IsRequested env finalize_request at_start account_2 "csr-1"
verified_csr-IsRequested_example =
    verified_csr-IsRequested env finalize_request at_start verified account_2 "csr-1" csr-verified

issued_dir_lem_example :
    issued_dir env "../../root" "deadbeef"
    ≡ (safe_name "../../root" <> "-" <> "deadbeef") ∷ "issued" ∷ "storage" ∷ []
unfolding base_path
issued_dir_lem_example = issued_dir_lem env "../../root" "deadbeef" refl

sign_order_csr-IsLeaf_example : IsLeaf env "csr-1" verified (text_in signed.0)
sign_order_csr-IsLeaf_example =
    sign_order_csr-IsLeaf env "csr-1" order_1 verified signed.1 (text_in signed.0) csr-signed

finalize-done : (finalize_handler env finalize_request world).0.status ≡ 200
finalize-done =
    ap (λ (resp : Response). resp.status)
      (finalize_issued env finalize_request world verified signed.1 kept.1 order_1 account_2 "csr-1"
        (text_in signed.0) (text_in kept.0) refl (ground (arith, eq_iff "o1" "")) order-loaded
        csr-verified csr-signed chain-kept)

finalize_handler-IsFinalized_example : IsFinalized env finalize_request at_start
finalize_handler-IsFinalized_example =
    finalize_handler-IsFinalized env finalize_request world finalize-done

sign_order_csr-notices_example :
    IsAnnounced env "csr-1" order_1 verified (sign_order_csr env "csr-1" order_1 verified).1
    ⊎ IsUntold env "csr-1" verified
        (sign_order_csr env "csr-1" order_1 verified).1
        (sign_order_csr env "csr-1" order_1 verified).0
sign_order_csr-notices_example = sign_order_csr-notices env "csr-1" order_1 verified
