-- ===== src/Tests/Answers.antt =====
-- The theorems on new-nonce and on the download of certificates, at the tests' CA.
use ad_pki_ca.Config.{base_path, base_dir}
use ad_pki_ca.Base.{◌≡◌, refl, true, split_slash, eq_iff, arith}
use ad_pki_ca.Base64.{encode_url}
use ad_pki_ca.World.{World, ok}
use ad_pki_ca.Files.{
  mkdir_all, write_file, has_dir, with_parents, path_eq, join, enter_all, enter, put_file,
}
use ad_pki_ca.Acme.Storage.{acme_path, ensure_dir, write_string_file, write_content}
use ad_pki_ca.Acme.Account.{new_id}
use ad_pki_ca.Acme.Nonce.{consume}
use ad_pki_ca.Base.{lookup}
use ad_pki_ca.Acme.Nonce.Single.{IsValid}
use ad_pki_ca.Acme.Order.{new_order_id}
use ad_pki_ca.Acme.Sign.{save_certificate}
use ad_pki_ca.Api.Http.{plain, generate}
use ad_pki_ca.Api.Directory.{new_nonce_handler}
use ad_pki_ca.Api.Directory.Fresh.{consume-new_nonce_handler}
use ad_pki_ca.Api.Finalize.{cert_handler}
use ad_pki_ca.Api.Finalize.Download.{cert_handler-save_certificate}
use ad_pki_ca.Tests.{env, world, nonces, post}

test_nonces-IsValid : IsValid nonces
test_nonces-IsValid = record { distinct = (unfold lookup in refl, tt) }

nonce-drawn : (new_nonce_handler env (post "/acme/new-nonce" "") world).0.status ≡ 204
unfolding new_nonce_handler generate new_id encode_url
nonce-drawn = refl

consume-new_nonce_handler_example :
    (consume
      (new_nonce_handler env (post "/acme/new-nonce" "") world).0.replay_nonce
      4000
      (new_nonce_handler env (post "/acme/new-nonce" "") world).1.nonces).0
    ≡ true
consume-new_nonce_handler_example =
    consume-new_nonce_handler env (post "/acme/new-nonce" "") world 4000 test_nonces-IsValid
      (ground (arith, nonce-drawn)) (omega arith) (omega arith)

abbrev after_keeping : World
after_keeping = (save_certificate env "chain" world).1

chain-saved : save_certificate env "chain" world ≡ (ok "AAw", after_keeping)
unfolding save_certificate new_order_id new_id encode_url ensure_dir write_string_file write_content
    mkdir_all write_file has_dir with_parents path_eq acme_path join base_path base_dir enter_all
    enter split_slash put_file
chain-saved = refl

cert_handler-save_certificate_example :
    ((cert_handler env (post "/acme/cert/AAw" "") after_keeping).0.status ≡ 200)
    × ((cert_handler env (post "/acme/cert/AAw" "") after_keeping).0.body ≡ plain "chain")
cert_handler-save_certificate_example =
    cert_handler-save_certificate env (post "/acme/cert/AAw" "") "chain" "AAw" world after_keeping
      after_keeping chain-saved (ground (arith, eq_iff "AAw" "")) refl refl
