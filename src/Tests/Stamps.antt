-- ===== src/Tests/Stamps.antt =====
-- The theorem on timestamps, at the tests' CA with a timestamp authority.
use ad_pki_ca.Config.{base_path, base_dir}
use ad_pki_ca.Base.{◌≡◌, refl, ◌∷◌, [], split_slash}
use ad_pki_ca.World.{World}
use ad_pki_ca.Files.{text, read_file, find_file, path_eq, join, enter_all, enter}
use ad_pki_ca.Ca.Loader.{read_bytes, load_ca_from_pem, parse_private_key}
use ad_pki_ca.Ca.Tsa.{load_tsa_certificate}
use ad_pki_ca.Api.Http.{Request}
use ad_pki_ca.Api.Ntp.{text_length}
use ad_pki_ca.Api.Tsa.{timestamp_handler, stamp_request, create_stamp}
use ad_pki_ca.Api.Tsa.Stamp.{IsStamped, timestamp_handler-IsStamped}
use ad_pki_ca.Tests.{env, world, fs, post}

abbrev tsa_world : World
tsa_world = record world {
  fs = record fs {
    files =
        record { path = "tsa.crt" ∷ "tsa" ∷ "storage" ∷ []; content = text "tsa"; mod_time = 0 }
        ∷ record {
          path = "tsa.key" ∷ "private" ∷ "tsa" ∷ "storage" ∷ [];
          content = text "key";
          mod_time = 0;
        }
        ∷ [];
  };
}

abbrev stamping : Request
stamping = post "/timestamp" "digest"

digest-stamped : (timestamp_handler env stamping tsa_world).0.status ≡ 200
unfolding timestamp_handler stamp_request text_length load_tsa_certificate read_bytes read_file
    find_file path_eq join base_path base_dir enter_all enter split_slash load_ca_from_pem
    parse_private_key create_stamp
digest-stamped = refl

timestamp_handler-IsStamped_example :
    IsStamped env stamping tsa_world (timestamp_handler env stamping tsa_world).0.body
timestamp_handler-IsStamped_example =
    timestamp_handler-IsStamped env stamping tsa_world digest-stamped
