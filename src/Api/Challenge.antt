-- ===== src/Api/Challenge.antt =====
-- internal/api/acme_handler.go: the challenge handler and the goroutine that it starts. The
-- goroutine's pointer `chall` is one of the authorization's challenges, so a job keeps the
-- authorization and that challenge's place, and both are changed together.
pub mod Verdict
pub mod Proof
pub mod Schedule
pub mod Begun
use ad_pki_ca.Base.{
  ℕ, zero, suc, Bool, true, false, Option, none, some, List, [], ◌∷◌, ◌++◌, String, ◌==◌, ◌<>◌,
  if◌then◌else◌,
}
use ad_pki_ca.Json.{Json, obj, str, field, end}
use ad_pki_ca.Env.{Env}
use ad_pki_ca.World.{World, Job, Outcome, Exec, ok, err, pure, lift, or_else, ◌>>=◌, ◌>>◌}
use ad_pki_ca.Acme.Types.{
  Challenge, Authorization, authz_pending, authz_valid, authz_invalid, challenge_processing,
  challenge_valid, challenge_invalid,
}
use ad_pki_ca.Acme.Storage.{save_authz}
use ad_pki_ca.Acme.Order.{update_order_status}
use ad_pki_ca.Acme.Challenge.{find_challenge_by_id, validate_http01, validate_dns01}
use ad_pki_ca.Api.Http.{
  Request, Response, acme_error, json_response, err_malformed, err_not_found, acme_base_url,
  with_nonce,
}
use ad_pki_ca.Api.Signed.{
  Texts, decode_raw_protected, decode_kid_header, require_post, require_id, read_header,
}
use ad_pki_ca.Api.Account.{id_after}

abbrev pub get_elem? : List Challenge → ℕ → Option Challenge
get_elem? [] i = none
get_elem? (c ∷ cs) zero = some c
get_elem? (c ∷ cs) (suc i) = get_elem? cs i

abbrev pub set : List Challenge → ℕ → Challenge → List Challenge
set [] i d = []
set (c ∷ cs) zero d = d ∷ cs
set (c ∷ cs) (suc i) d = c ∷ set cs i d

-- The loop that copies `chall` over the first challenge with its id.
unfoldable pub replace_first : Challenge → List Challenge → List Challenge
replace_first d [] = []
replace_first d (c ∷ cs) = if c.id == d.id then d ∷ cs else c ∷ replace_first d cs

abbrev pub short_texts : Texts
short_texts = record {
  no_body = "failed to read body";
  no_jws = "invalid JWS";
  no_header = "invalid protected header";
}

abbrev pub method_refused : Response
method_refused = acme_error err_malformed "method not allowed"

-- The challenge and the authorization as a validation that is over leaves them.
abbrev pub settled : Outcome String (Unit {0}) → ℕ → Challenge → Challenge
settled (ok _) now c = record c { status = challenge_valid; validated_at = some now }
settled (err _) now c = record c { status = challenge_invalid }

abbrev pub verdict : Outcome String (Unit {0}) → String
verdict (ok _) = authz_valid
verdict (err _) = authz_invalid

unfoldable pub settle :
    Outcome String (Unit {0}) → ℕ → ℕ → Challenge → Authorization → Authorization
unfolding replace_first
settle out now i c authz = record authz {
  status = verdict out;
  challenges = replace_first (settled out now c) (set authz.challenges i (settled out now c));
}

-- The goroutine as the handler starts it: the challenge is marked as being processed.
abbrev pub started : Authorization → ℕ → Challenge → Job
started authz i c = record {
  authz = record authz {
    status = authz_pending;
    challenges = set authz.challenges i (record c { status = challenge_processing });
  };
  at = i;
}

module _ (env : Env) where
  -- The goroutine's `switch` on the challenge's type.
  unfoldable pub validate : Authorization → Challenge → Exec String (Unit {0})
  validate authz c =
      if c.kind == "http-01"
      then validate_http01 env authz c
      else if c.kind == "dns-01"
      then validate_dns01 env authz c
      else (λ w. (err ("unsupported challenge type: " <> c.kind), w))

  -- The goroutine. The error of `SaveAuthz` is dropped.
  unfoldable pub run_validation : Authorization → ℕ → Challenge → World → World
  run_validation authz i c w =
      let (out, w₁) = validate authz c w in
      let w₂ = (save_authz env (settle out w.now i c authz) w₁).1 in
      (update_order_status env authz.order_id w₂).1

  unfoldable pub run_job : Job → World → World
  run_job job w = elim (get_elem? job.authz.challenges job.at) [
    | none ↦ w
    | some c ↦ run_validation job.authz job.at c w
  ]

  -- ACMEChallengeHandler. The request's signature is not looked at.
  unfoldable pub challenge_handler : Request → World → Response × World
  challenge_handler r = with_nonce env (do
    require_post method_refused r
    require_id (id_after "/acme/challenge/" r) "missing challenge id"
    (authz, i, c) ←
        or_else (find_challenge_by_id env (id_after "/acme/challenge/" r))
          (λ _. acme_error err_not_found "challenge not found")
    (body, h) ← read_header env short_texts decode_raw_protected decode_kid_header r
    (λ w. (ok tt, record w { jobs = w.jobs ++ started authz i c ∷ [] }))
    pure
        (record (json_response 200 (
          obj (
            field "type" (str c.kind) (
              field "status" (str challenge_processing) (
                field "token" (str c.token)
                  (field "url" (str (acme_base_url r <> "/acme/challenge/" <> c.id)) end)))))) {
                    link = "<" <> acme_base_url r <> "/acme/authz/" <> authz.id <> ">;rel=\"up\"";
                  }))
