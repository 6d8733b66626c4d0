-- ===== src/Tests/Lists.antt =====
-- The theorems on the workers and on the lists of revoked certificates, at the tests' CA.
use ad_pki_ca.Config.{base_path, base_dir}
use ad_pki_ca.Base.{◌+◌, ◌≤◌, ◌<◌, ◌%◌, ◌≡◌, refl, String, split_slash, eq_iff, arith}
use ad_pki_ca.World.{World, ok}
use ad_pki_ca.Files.{
  read_file, find_file, has_dir, path_eq, join, enter_all, enter, write_file, put_file,
}
use ad_pki_ca.Json.{get, to_str, to_fields, to_list, decode_items}
use ad_pki_ca.Hex.{parse_hex, parse_from}
use ad_pki_ca.Ca.Loader.{read_bytes, load_ca_from_pem, parse_private_key}
use ad_pki_ca.Ca.Revocation.{
  backend_url, fetch_revoked_certificates, revoked_of, read_serial, decode_revoked_cert,
  generate_crl, sign_crl,
}
use ad_pki_ca.Api.Http.{Request, plain_response}
use ad_pki_ca.Api.Crl.{crl_path, update_crl, crl_round, crl_handler}
use ad_pki_ca.Api.Crl.Round.{IsCrl, AfterRound, crl_round-AfterRound}
use ad_pki_ca.Api.Crl.Served.{crl_handler-update_crl}
use ad_pki_ca.Worker.Cleanup.{next_run}
use ad_pki_ca.Worker.Cleanup.Night.{next_run_lem}
use ad_pki_ca.Tests.{env, post}
use ad_pki_ca.Tests.Responder.{ocsp_world}

crl_round-AfterRound_example :
    AfterRound env (crl_path env "int") ocsp_world ocsp_world (crl_round env ocsp_world)
crl_round-AfterRound_example = crl_round-AfterRound env (crl_path env "int") ocsp_world

abbrev updated : World
updated = (update_crl env "int" ocsp_world).1

list-updated : update_crl env "int" ocsp_world ≡ (ok tt, updated)
unfolding update_crl fetch_revoked_certificates generate_crl sign_crl read_bytes load_ca_from_pem
    parse_private_key read_file find_file has_dir path_eq join base_path base_dir enter_all enter
    split_slash write_file put_file backend_url revoked_of read_serial decode_revoked_cert get
    to_str to_fields to_list decode_items parse_hex parse_from
list-updated = refl

abbrev list_request : Request
list_request = post "/crl/int.pem" ""

crl_handler-update_crl_example :
    (pem : String) × IsCrl env "int" ocsp_world pem
    × (crl_handler env list_request updated
        ≡ (plain_response 200 "application/pkix-crl" pem, updated))
crl_handler-update_crl_example =
    crl_handler-update_crl env list_request "int" ocsp_world updated updated refl
      (ground (arith, eq_iff "int" "")) list-updated refl

next_run_lem_example :
    (100000 ≤ next_run env 100000)
    × (next_run env 100000 < 100000 + 86400)
    × (next_run env 100000 % 86400 ≡ 7200)
next_run_lem_example = next_run_lem env 100000 refl

abbrev late : World
late = record ocsp_world { now = 2593000 }
