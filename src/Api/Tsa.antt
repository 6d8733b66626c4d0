-- ===== src/Api/Tsa.antt =====
-- internal/api/tsa_generate_handler.go and internal/api/timestamp_handler.go: the timestamp authority. A
-- body above the limit of `http.MaxBytesReader` cannot be read, also where a JSON value ends before it.
pub mod Stamp
use ad_pki_ca.Base.{
  ℕ, suc, ◌*◌, Bool, true, not, Option, none, some, [], ◌∷◌, String, ◌==◌, ◌<>◌, leb, if◌then◌else◌,
}
use ad_pki_ca.Hex.{to_hex}
use ad_pki_ca.Json.{
  opt_bind, Json, Fields, bool, str, stamp, obj, field, end, get, to_str, to_fields,
}
use ad_pki_ca.Env.{Env, Timestamp}
use ad_pki_ca.World.{
  World, Exec, Outcome, ok, err, pure, reads, require, lift, or_else, ◌>>=◌, ◌>>◌,
}
use ad_pki_ca.Ca.Loader.{Ca}
use ad_pki_ca.Ca.Tsa.{
  generate_tsa_certificate, load_tsa_certificate, tsa_exists, store_tsa_certificate,
}
use ad_pki_ca.Api.Http.{Request, Response, http_error, json_response, plain_response, merge}
use ad_pki_ca.Api.Ntp.{text_length}

abbrev pub limited : ℕ → Option String → Option String
limited n none = none
limited n (some s) = if leb (text_length s) n then some s else none

unfoldable pub decode_tsa_request : Json → Option String
decode_tsa_request j = opt_bind (to_fields j) λ fs. to_str (get "intermediate_id" fs)

abbrev pub method_error : Response
method_error = http_error "method not allowed" 405

module _ (env : Env) where
  -- TSAGenerateHandler
  unfoldable pub tsa_generate_handler : Request → World → Response × World
  unfolding decode_tsa_request
  tsa_generate_handler r w =
      let (out, v) =
        (do
          require (r.method == "POST") method_error
          id ←
              lift
                (opt_bind (opt_bind (limited (1024 * 1024) r.body) env.first_json)
                  decode_tsa_request)
                (http_error "invalid json" 400)
          require (not (id == "")) (http_error "intermediate_id is required" 400)
          made ←
              or_else (generate_tsa_certificate env id)
                (λ e. http_error ("failed to generate TSA certificate: " <> e) 500)
          or_else (store_tsa_certificate env made.cert_pem made.key_pem)
              (λ e. http_error ("failed to store TSA certificate: " <> e) 500)
          pure (
              json_response 200 (
                obj (
                  field "success" (bool true)
                    (field "message" (str "TSA Zertifikat erfolgreich erstellt") end)))))
          w in
      (merge out, v)

  -- The keys of a Go map stand in their order.
  abbrev tsa_status : Bool → Outcome String (Ca env) → Fields
  tsa_status exists (err _) = field "exists" (bool exists) end
  tsa_status exists (ok ca) = field "common_name" (str (env.cert_common_name ca.cert)) (
      field "exists" (bool exists) (
        field "serial" (str (to_hex (env.cert_serial ca.cert))) (
          field "valid_from" (stamp (env.cert_not_before ca.cert))
            (field "valid_to" (stamp (env.cert_not_after ca.cert)) end))))

  -- TSAStatusHandler
  unfoldable pub tsa_status_handler : Request → World → Response × World
  tsa_status_handler r w =
      if r.method == "GET"
      then (
        json_response 200 (
            obj (
              if tsa_exists env w
              then tsa_status true (load_tsa_certificate env w).0
              else field "exists" (bool (tsa_exists env w)) end)),
        w,
      )
      else (method_error, w)

  abbrev pub timestamp_of : env.TsRequest → ℕ → Timestamp
  timestamp_of req now = record {
    hash_algorithm = env.ts_hash_algorithm req;
    hashed_message = env.ts_hashed_message req;
    time = now;
    nonce = env.ts_nonce req;
    add_tsa_certificate = true;
    policy = 1 ∷ 3 ∷ 6 ∷ 1 ∷ 4 ∷ 1 ∷ 99999 ∷ 1 ∷ [];
  }

  unfoldable pub create_stamp : Timestamp → Ca env → Exec Response String
  create_stamp t ca w = elim (env.create_timestamp w.draws t ca.cert ca.key) [
    | none ↦ (
      err (http_error "failed to create timestamp response" 500),
      record w { draws = suc w.draws },
    )
    | some der ↦ (ok der, record w { draws = suc w.draws })
  ]

  unfoldable pub stamp_request : Request → Exec Response Response
  unfolding create_stamp
  stamp_request r = do
    require (r.method == "POST") method_error
    body ← lift (limited (10 * 1024 * 1024) r.body) (http_error "failed to read request" 400)
    req ← lift (env.parse_timestamp body) (http_error "invalid timestamp request" 400)
    ca ←
        or_else (load_tsa_certificate env)
          (λ _. http_error "TSA certificate not available — generate one first" 503)
    now ← reads (λ w. w.now)
    require (env.is_signer ca.key) (http_error "TSA key is not a valid signer" 500)
    der ← create_stamp (timestamp_of req now) ca
    pure (plain_response 200 "application/timestamp-reply" der)

  -- TimestampHandler
  unfoldable pub timestamp_handler : Request → World → Response × World
  unfolding stamp_request
  timestamp_handler r w = let (out, v) = stamp_request r w in (merge out, v)
