-- ===== src/Tests/Responder.antt =====
-- The theorems on the OCSP responder, at the tests' CA.
use ad_pki_ca.Base.{◌≡◌, refl, none, [], ◌∷◌}
use ad_pki_ca.Env.{Env}
use ad_pki_ca.World.{World, ok}
use ad_pki_ca.Ca.Loader.{Ca}
use ad_pki_ca.Ca.Revocation.{fetch_revoked_certificates}
use ad_pki_ca.Api.Http.{Request}
use ad_pki_ca.Api.Ocsp.{ocsp_response, create_response, renew, ocsp_handler}
use ad_pki_ca.Api.Ocsp.Status.{IsTold, renew-IsTold}
use ad_pki_ca.Tests.{env, world, network, fs, post}

abbrev pub ocsp_world : World
ocsp_world = record world {
  fs = record fs {
    dirs =
        ("int" ∷ "intermediates" ∷ "storage" ∷ [])
        ∷ ("intermediates" ∷ "storage" ∷ [])
        ∷ ("storage" ∷ [])
        ∷ []
        ∷ [];
  };
}

abbrev question : Request
question = post "/ocsp" "request"

abbrev asked_world : World
asked_world = (ocsp_handler env question ocsp_world).1

abbrev int_ca : Ca env
int_ca = record { id = "int"; cert = "intermediate"; key = "key" }

abbrev renewed : World
renewed = (renew env 7 int_ca "int:7" ocsp_world).1

renewed-answer : renew env 7 int_ca "int:7" ocsp_world ≡ (ok (ocsp_response "response"), renewed)
unfolding renew create_response fetch_revoked_certificates
renewed-answer = refl

renew-IsTold_example : IsTold env 7 int_ca "int:7" ocsp_world renewed (ocsp_response "response")
renew-IsTold_example =
    renew-IsTold env 7 int_ca "int:7" ocsp_world renewed (ocsp_response "response") renewed-answer

abbrev cut_off : Env
cut_off = record env { network = record network { get_json = λ t url. none } }

abbrev cut_off_ca : Ca cut_off
cut_off_ca = record { id = "int"; cert = "intermediate"; key = "key" }
