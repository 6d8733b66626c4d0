-- ===== src/Tests/Refined.antt =====
-- The theorems on the order files and the goroutines, at the tests' CA.
use ad_pki_ca.Base.{◌≡◌, List, [], ◌∷◌, ◌⊎◌, ◌≢◌, ◌++◌}
use ad_pki_ca.World.{World, Job}
use ad_pki_ca.Acme.Storage.Refinement.{Op, save, load, run, table_of, Allows, run-Allows}
use ad_pki_ca.Files.{text}
use ad_pki_ca.Api.Http.{Request}
use ad_pki_ca.Api.Challenge.{challenge_handler}
use ad_pki_ca.Api.Challenge.Begun.{challenge_handler-jobs}
use ad_pki_ca.Tests.{env, world, fs, post, order_1}

abbrev two_operations : List Op
two_operations = save (record order_1 { status = "ready" }) ∷ load "o1" ∷ []

run-Allows_example :
    Allows env
      (table_of env world)
      two_operations
      (run env two_operations world).0
      (table_of env (run env two_operations world).1)
run-Allows_example = run-Allows env two_operations world

-- The tests' files with the mapping of the challenge.
abbrev mapped : World
mapped = record world {
  fs = record fs {
    files =
        record {
          path = "c1" ∷ "challenges" ∷ "acme" ∷ "storage" ∷ [];
          content = text "z1";
          mod_time = 900;
        }
        ∷ fs.files;
  };
}

abbrev challenge_request : Request
challenge_request = post "/acme/challenge/c1" "order-request"

challenge_handler-jobs_example :
    (((challenge_handler env challenge_request mapped).0.status ≡ 200)
      × (j : Job) × ((challenge_handler env challenge_request mapped).1.jobs
          ≡ mapped.jobs ++ j ∷ []))
    ⊎ (((challenge_handler env challenge_request mapped).0.status ≢ 200)
        × ((challenge_handler env challenge_request mapped).1.jobs ≡ mapped.jobs))
challenge_handler-jobs_example = challenge_handler-jobs env challenge_request mapped
