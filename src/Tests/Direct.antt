-- ===== src/Tests/Direct.antt =====
-- The theorems on signing, importing and the time server, at the tests' CA.
use ad_pki_ca.Config.{base_path, base_dir}
use ad_pki_ca.Base.{◌≡◌, refl, none, some, true, [], ◌∷◌, String, split_slash}
use ad_pki_ca.World.{World, ok}
use ad_pki_ca.Files.{
  read_file, find_file, has_dir, path_eq, join, enter_all, enter, write_file, put_file, mkdir_all,
  with_parents,
}
use ad_pki_ca.Hex.{to_hex}
use ad_pki_ca.Ca.Loader.{read_bytes, load_ca_from_pem, parse_private_key}
use ad_pki_ca.Ca.Sign.{sign_csr, random_serial, usage_of, template}
use ad_pki_ca.Ca.Chain.{build_chain}
use ad_pki_ca.Ca.Issued.{IssuedPaths, store_certificate, write_bytes, write_optional, safe_name}
use ad_pki_ca.Ca.Issued.Kept.{IsStored, store_certificate-IsStored}
use ad_pki_ca.Ca.Request.{parse_csr_pem}
use ad_pki_ca.Ca.Validate.{
  validate_intermediate, read_cert, check_intermediate, validate_key_matches_cert, check_key,
  parse_certificate,
}
use ad_pki_ca.Ca.Stored.{store_intermediate}
use ad_pki_ca.Api.Http.{Request, FormFile}
use ad_pki_ca.Api.Sign.{
  sign_handler, sign_upload, form_days, require_text, sign_and_store, sign_response,
}
use ad_pki_ca.Api.Sign.Upload.{IsUploaded, sign_handler-IsUploaded}
use ad_pki_ca.Api.Import.{import_intermediate_handler, read_upload, import_upload}
use ad_pki_ca.Api.Import.Imported.{IsImported, import_intermediate_handler-IsImported}
use ad_pki_ca.Api.Ntp.{set_ntp_handler}
use ad_pki_ca.Api.Ntp.Names.{IsAnswered, set_ntp_handler-IsAnswered}
use ad_pki_ca.Base.{lookup}
use ad_pki_ca.Tests.{env, world, post}

abbrev file : String → FormFile
file s = record { content = s; whole = true }

abbrev stored_paths : IssuedPaths
stored_paths = record {
  crt_path = "certificate.crt" ∷ "b.org-7" ∷ "issued" ∷ "storage" ∷ [];
  csr_path = "request.csr" ∷ "b.org-7" ∷ "issued" ∷ "storage" ∷ [];
  key_path = none;
  chain_path = some ("fullchain.pem" ∷ "b.org-7" ∷ "issued" ∷ "storage" ∷ []);
}

abbrev after_storing : World
after_storing = (store_certificate env "b.org" "7" "cert" "csr" none (some "chain") world).1

certificate-stored :
    store_certificate env "b.org" "7" "cert" "csr" none (some "chain") world
    ≡ (ok stored_paths, after_storing)
unfolding store_certificate safe_name write_optional write_bytes mkdir_all with_parents write_file
    put_file has_dir path_eq join base_path base_dir enter_all enter split_slash
certificate-stored = refl

store_certificate-IsStored_example :
    IsStored env stored_paths "cert" "csr" none (some "chain") after_storing.fs
store_certificate-IsStored_example =
    store_certificate-IsStored env "b.org" "7" "cert" "csr" none (some "chain") world after_storing
      stored_paths certificate-stored

abbrev upload : Request
upload = record (post "/sign" "") {
  form = record {
    values = ("intermediate", "int") ∷ ("crl_url", "http://crl") ∷ [];
    files = ("csr", file "request") ∷ [];
  };
}

upload-signed : (sign_handler env upload world).0.status ≡ 200
unfolding sign_handler sign_upload lookup parse_csr_pem require_text form_days sign_and_store
    sign_csr read_bytes read_file find_file load_ca_from_pem parse_private_key random_serial
    usage_of template to_hex build_chain store_certificate safe_name write_optional write_bytes
    mkdir_all with_parents write_file put_file has_dir path_eq join base_path base_dir enter_all
    enter split_slash sign_response
upload-signed = refl

sign_handler-IsUploaded_example : IsUploaded env upload world (sign_handler env upload world).1
sign_handler-IsUploaded_example = sign_handler-IsUploaded env upload world upload-signed

abbrev by_data : Request
by_data = post "/sign-from-data" "sign-data"

abbrev importing : Request
importing = record (post "/ca/import-intermediate" "") {
  form = record {
    values = ("name", "sub") ∷ [];
    files =
        ("root", file "root") ∷ ("intermediate", file "intermediate") ∷ ("key", file "key") ∷ [];
  };
}

intermediate-imported : (import_intermediate_handler env importing world).0.status ≡ 200
unfolding import_intermediate_handler read_upload lookup import_upload validate_intermediate
    read_cert check_intermediate validate_key_matches_cert check_key store_intermediate
    parse_certificate to_hex write_bytes mkdir_all with_parents write_file put_file has_dir path_eq
    join base_path base_dir enter_all enter split_slash
intermediate-imported = refl

import_intermediate_handler-IsImported_example :
    IsImported env importing world (import_intermediate_handler env importing world).1
import_intermediate_handler-IsImported_example =
    import_intermediate_handler-IsImported env importing world intermediate-imported

abbrev time_server : Request
time_server = post "/system/ntp" "time-server"

set_ntp_handler-IsAnswered_example :
    IsAnswered env time_server world
      (set_ntp_handler env time_server world).0
      (set_ntp_handler env time_server world).1
set_ntp_handler-IsAnswered_example = set_ntp_handler-IsAnswered env time_server world
