-- ===== src/Api/Revoke.antt =====
-- internal/api/acme_handler.go: revoke-cert, with internal/acme/revoke.go. The reason is a JSON
-- number that is not negative; a negative one has no text in the map either.
use ad_pki_ca.Base.{ℕ, Option, none, some, String, ◌<>◌, eqb, if◌then◌else◌}
use ad_pki_ca.Json.{opt_bind, Json, get, to_str, to_num, to_fields}
use ad_pki_ca.Hex.{to_hex}
use ad_pki_ca.Env.{Env}
use ad_pki_ca.World.{World, Exec, ok, err, pure, lift, or_else, ◌>>=◌, ◌>>◌}
use ad_pki_ca.Api.Http.{Request, Response, nothing, acme_error, err_malformed, with_nonce}
use ad_pki_ca.Api.Signed.{decode_raw, decode_kid_header, require_post, read_header, authenticate}
use ad_pki_ca.Api.Challenge.{short_texts, method_refused}

pub record RevokeRequest : Type 0 where
  pub certificate : String
  pub reason : ℕ

unfoldable pub decode_revoke_request : Json → Option RevokeRequest
decode_revoke_request j = opt_bind (to_fields j) λ fs.
    opt_bind (to_str (get "certificate" fs)) λ certificate.
      opt_bind (to_num (get "reason" fs))
        λ reason. some (record { certificate = certificate; reason = reason })

-- `reasonMap`, with its fallback.
unfoldable pub reason_text : ℕ → String
reason_text code =
    if eqb code 1
    then "key_compromise"
    else if eqb code 5
    then "cessation_of_operation"
    else if eqb code 4
    then "superseded"
    else "unspecified"

module _ (env : Env) where
  open env use {Cert}

  -- RevokeVieLaravel: an answer other than 200 is an error.
  unfoldable pub revoke_via_laravel : String → String → Exec String (Unit {0})
  revoke_via_laravel serial reason w = elim (env.post_revocation w.now serial reason) [
    | none ↦ (err "http error", w)
    | some status ↦ if eqb status 200 then (ok tt, w) else (err "laravel returned", w)
  ]

  -- The certificate and the reason of the payload.
  unfoldable pub read_revocation : String → Exec Response (Cert × ℕ)
  unfolding decode_revoke_request
  read_revocation payload = do
    req ←
        lift (opt_bind (env.parse_text payload) decode_revoke_request)
          (acme_error err_malformed "invalid revoke payload")
    der ←
        lift (env.decode_url req.certificate)
          (acme_error err_malformed "invalid certificate encoding")
    cert ← lift (env.parse_cert der) (acme_error err_malformed "invalid certificate")
    pure (cert, req.reason)

  -- ACMERevokeCertHandler
  unfoldable pub revoke_cert_handler : Request → World → Response × World
  revoke_cert_handler r = with_nonce env (do
    require_post method_refused r
    (body, h) ← read_header env short_texts decode_raw decode_kid_header r
    (acc, payload) ← authenticate env h.kid body
    (cert, reason) ← read_revocation payload
    or_else (revoke_via_laravel (to_hex (env.cert_serial cert)) (reason_text reason))
        (λ e. acme_error err_malformed ("revocation failed: " <> e))
    pure (record {
      status = 200;
      content_type = "";
      location = "";
      link = "";
      replay_nonce = "";
      body = nothing;
    }))
