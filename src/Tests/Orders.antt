-- ===== src/Tests/Orders.antt =====
-- The theorems on new orders, on the status of an order and on validations, at the tests' CA.
use ad_pki_ca.Config.{base_path, base_dir}
use ad_pki_ca.Base.{◌≡◌, refl, some, List, [], ◌∷◌, String, map, split_slash, after_last_slash}
use ad_pki_ca.Base64.{encode_url}
use ad_pki_ca.World.{World, Outcome, ok, err}
use ad_pki_ca.Files.{
  mkdir_all, write_file, read_file, find_file, has_dir, with_parents, path_eq, join, enter_all,
  enter, put_file,
}
use ad_pki_ca.Json.{
  omit_list, get, to_str, to_time, to_time?, to_fields, to_list, decode_str, omit_str, omit_time,
  encode_items, decode_items,
}
use ad_pki_ca.Acme.Types.{
  Authorization, Order, encode_order, decode_order, encode_identifier, decode_identifier,
}
use ad_pki_ca.Acme.Storage.{
  save_order, load_order, save_authz, load_authz, ensure_dir, write_json, write_content, read_json,
  acme_path, order_path, authz_path,
}
use ad_pki_ca.Acme.Account.{new_id}
use ad_pki_ca.Acme.Order.{
  new_order, new_order_id, new_authorizations, new_authorization, new_authz_id, new_challenge,
  http_challenges, new_challenge_id, new_challenge_token, update_order_status,
}
use ad_pki_ca.Acme.Order.Creation.{AreNew, new_order_lem}
use ad_pki_ca.Acme.Order.Status.{aggregate, update_order_status_lem}
use ad_pki_ca.Acme.Challenge.{find_challenge}
use ad_pki_ca.Api.Challenge.{run_job, started, validate, verdict}
use ad_pki_ca.Api.Challenge.Proof.{IsProved, verdict-validate}
use ad_pki_ca.Base.{◌↔◌, trim_space}
use ad_pki_ca.Acme.Storage.{load_account, account_path}
use ad_pki_ca.Acme.Types.{encode_account, decode_account}
use ad_pki_ca.Acme.Challenge.{validate_http01, key_authorization}
use ad_pki_ca.Acme.Account.{key_thumbprint, load_account_jwk}
use ad_pki_ca.Api.Challenge.Verdict.{judged, outcome, run_job_lem}
use ad_pki_ca.Tests.{env, world, order_1, authz_1, challenge_1, a_org}

abbrev updated : World
updated = (save_order env (record order_1 { status = aggregate env world order_1 }) world).1

loaded : load_order env "o1" world ≡ (ok order_1, world)
unfolding load_order read_json read_file find_file path_eq order_path acme_path join base_path
    base_dir enter_all enter split_slash decode_order encode_order get to_str to_time to_time?
    to_fields to_list decode_str omit_str omit_time encode_items decode_items encode_identifier
    decode_identifier
loaded = refl

updated-ok :
    save_order env (record order_1 { status = aggregate env world order_1 }) world
    ≡ (ok tt, updated)
unfolding save_order ensure_dir write_json write_content mkdir_all write_file has_dir with_parents
    path_eq acme_path order_path join base_path base_dir enter_all enter split_slash put_file
updated-ok = refl

update_order_status_lem_example :
    (update_order_status env "o1" world ≡ (ok tt, updated))
    × (load_order env "o1" updated
        ≡ (ok (record order_1 { status = aggregate env world order_1 }), updated))
update_order_status_lem_example =
    update_order_status_lem env world "o1" order_1 updated loaded updated-ok

abbrev judged_1 : Authorization
judged_1 = judged authz_1 0 challenge_1 (outcome env authz_1 0 challenge_1 world) 1000

abbrev after_job : World
after_job = (save_authz env judged_1 world).1

saved-ok : save_authz env judged_1 world ≡ (ok tt, after_job)
unfolding save_authz ensure_dir write_json write_content mkdir_all write_file has_dir with_parents
    path_eq acme_path authz_path join base_path base_dir enter_all enter split_slash put_file
saved-ok = refl

found : find_challenge "c1" authz_1.challenges ≡ some (0, challenge_1)
unfolding find_challenge
found = refl

run_job_lem_example :
    (run_job env (started authz_1 0 challenge_1) world ≡ (update_order_status env "o1" after_job).1)
    × (load_authz env "z1" after_job ≡ (ok judged_1, after_job))
run_job_lem_example = run_job_lem env authz_1 0 challenge_1 world after_job found saved-ok

abbrev order_in : Outcome String (Order × List Authorization) → Order
order_in (ok (o, as')) = o
order_in (err e) = order_1

abbrev authzs_in : Outcome String (Order × List Authorization) → List Authorization
authzs_in (ok (o, as')) = as'
authzs_in (err e) = []

abbrev made : Outcome String (Order × List Authorization) × World
made = new_order env "a1" (a_org ∷ []) "http://ca" world

made-ok :
    new_order env "a1" (a_org ∷ []) "http://ca" world
    ≡ (ok (order_in made.0, authzs_in made.0), made.1)
unfolding new_order new_order_id new_authorizations new_authorization new_authz_id new_challenge
    http_challenges new_challenge_id new_challenge_token new_id encode_url
made-ok = refl

new_order_lem_example :
    ((order_in made.0).account_id ≡ "a1")
    × ((order_in made.0).status ≡ "pending")
    × ((order_in made.0).identifiers ≡ a_org ∷ [])
    × AreNew env "a1" (order_in made.0).id (a_org ∷ []) (authzs_in made.0)
    × (map after_last_slash (order_in made.0).authorizations
        ≡ map (λ (a : Authorization). a.id) (authzs_in made.0))
new_order_lem_example =
    new_order_lem env "a1" (a_org ∷ []) "http://ca" world made.1 (order_in made.0)
      (authzs_in made.0) made-ok

verdict-validate_example :
    (verdict (validate env authz_1 challenge_1 world).0 ≡ "valid")
    ↔ IsProved env authz_1 challenge_1 world
verdict-validate_example = verdict-validate env authz_1 challenge_1 world

-- The server of the tests shows the key authorization.
challenge_1-met : verdict (validate env authz_1 challenge_1 world).0 ≡ "valid"
unfolding validate validate_http01 key_authorization load_account load_account_jwk key_thumbprint
    read_json read_file find_file path_eq account_path acme_path join base_path base_dir enter_all
    enter split_slash decode_account encode_account get to_str to_time to_fields to_list decode_str
    decode_items omit_list encode_items encode_url trim_space
challenge_1-met = refl
