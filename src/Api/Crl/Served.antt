-- ===== src/Api/Crl/Served.antt =====
-- internal/api/crl_handler.go: the lists that are served are those the worker wrote.
use ad_pki_ca.Base.{◌≡◌, false, String, ◌==◌, arith}
use ad_pki_ca.Env.{Env}
use ad_pki_ca.Files.{text}
use ad_pki_ca.Files.Laws.{read_file-write_file, path_eq_refl}
use ad_pki_ca.World.{World, ok}
use ad_pki_ca.Ca.Loader.{read_bytes}
use ad_pki_ca.Api.Http.{Request, plain_response}
use ad_pki_ca.Api.Crl.{crl_path, crl_id, update_crl, crl_handler}
use ad_pki_ca.Api.Crl.Round.{IsCrl, update_crl-eq-ok}

-- Once the worker has updated the list of an intermediate, the handler answers a request for it 200 with
-- the new list, in any state with the files as they were then.
pub crl_handler-update_crl :
    (env : Env) (r : Request) (id : String) (w u v : World)
    → crl_id env r ≡ id
    → (id == "") ≡ false
    → update_crl env id w ≡ (ok tt, v)
    → u.fs ≡ v.fs
    → (pem : String) × IsCrl env id w pem
      × (crl_handler env r u ≡ (plain_response 200 "application/pkix-crl" pem, u))
unfolding crl_handler read_bytes
crl_handler-update_crl env r id w u v named there updated same =
    let (pem, crl, written, _) = update_crl-eq-ok env id w v updated in
    let path = crl_path env id in
    let seen = read_file-write_file path path w.now (text pem) w.fs written in
    (pem, crl, ground (arith, named, there, same, seen, path_eq_refl path))
