-- ===== src/Api/Ocsp.antt =====
-- internal/api/ocsp_handler.go, internal/api/ocsp_cache.go and internal/ca/ocsp.go: the OCSP
-- responder. Its answers are kept for an hour under their issuer and serial number.
pub mod Kept
pub mod Current
pub mod Status
use ad_pki_ca.Base.{
  ℕ, suc, ◌+◌, Bool, true, false, ◌&&◌, Option, none, some, List, [], ◌∷◌, String, ◌==◌, ◌<>◌, ltb,
  eqb, if◌then◌else◌, lookup, insert,
}
use ad_pki_ca.Hex.{to_hex}
use ad_pki_ca.Env.{Env, Revoked, OcspStatus, good, revoked, OcspTemplate}
use ad_pki_ca.World.{
  World, Exec, ok, err, pure, reads, lift, or_else, or_zero, attempt, ◌>>=◌, ◌>>◌,
}
use ad_pki_ca.Ca.Loader.{Ca}
use ad_pki_ca.Ca.Intermediates.{load_all_intermediates}
use ad_pki_ca.Ca.Revocation.{backend_url, fetch_revoked_certificates}
use ad_pki_ca.Ocsp.Cache.{CachedResponse}
use ad_pki_ca.Ocsp.Key.{build_cache_key}
use ad_pki_ca.Api.Http.{Request, Response, http_error, plain_response, aborted, merge}

abbrev pub is_number : ℕ → Option ℕ → Bool
is_number n none = false
is_number n (some m) = eqb m n

-- The first entry of the list with the serial number, by its time.
unfoldable pub revoked_time : ℕ → List Revoked → Option ℕ
revoked_time serial [] = none
revoked_time serial (r ∷ rs) =
    let later = revoked_time serial rs in
    if is_number serial r.serial_number then some r.revocation_time else later

-- The response's template at a time. The time of a revocation is set for a revoked one only.
unfoldable pub ocsp_template : ℕ → ℕ → Option ℕ → OcspTemplate
ocsp_template serial now none = record {
  status = good;
  serial_number = serial;
  this_update = now;
  next_update = now + 3600;
  revoked_at = 0;
}
ocsp_template serial now (some t) = record {
  status = revoked;
  serial_number = serial;
  this_update = now;
  next_update = now + 3600;
  revoked_at = t;
}

abbrev pub ocsp_response : String → Response
ocsp_response content = plain_response 200 "application/ocsp-response" content

-- ClearOCSPCacheHandler
unfoldable pub clear_ocsp_cache_handler : Request → World → Response × World
clear_ocsp_cache_handler r w = (
  plain_response 200 "text/plain; charset=utf-8" "OCSP cache cleared",
  record w { ocsp_cache = [] },
)

module _ (env : Env) where
  open env use {Cert, OcspRequest}

  -- getIssuerHashes: of the name and of the key.
  abbrev pub get_issuer_hashes : Cert → String × String
  get_issuer_hashes cert = (env.sha1 (env.raw_subject cert), env.sha1 (env.public_key_bits cert))

  -- FindIssuer
  unfoldable pub find_issuer : OcspRequest → List (Ca env) → Option (Ca env)
  find_issuer req [] = none
  find_issuer req (ca ∷ cas) =
      let later = find_issuer req cas in
      let (name_hash, key_hash) = get_issuer_hashes ca.cert in
      if name_hash == env.issuer_name_hash req && key_hash == env.issuer_key_hash req
      then some ca
      else later

  -- The kept response, if its hour is not over.
  unfoldable pub fresh_content : ℕ → Option CachedResponse → Option String
  fresh_content now none = none
  fresh_content now (some e) = if ltb now e.expires_at then some e.content else none

  -- `ocsp.CreateResponse`. A key that is no `crypto.Signer` makes the type assertion panic.
  unfoldable pub create_response : Ca env → OcspTemplate → Exec Response String
  create_response issuer t w =
      if env.is_signer issuer.key
      then elim (env.create_ocsp w.draws issuer.cert issuer.cert t issuer.key) [
        | none ↦
            (err (http_error "failed to create response" 500), record w { draws = suc w.draws })
        | some content ↦ (ok content, record w { draws = suc w.draws })
      ]
      else (err aborted, w)

  abbrev pub revoked_url : String → String
  revoked_url issuer_id = backend_url env <> "/api/certificates/revoked?intermediate=" <> issuer_id

  abbrev pub keep_response : String → CachedResponse → Exec Response (Unit {0})
  keep_response key e w = (ok tt, record w { ocsp_cache = insert key e w.ocsp_cache })

  -- A new response, which is kept. An error of the backend leaves the status at "good".
  unfoldable pub renew : ℕ → Ca env → String → Exec Response Response
  unfolding create_response ocsp_template
  renew serial issuer key = do
    listed ← or_zero [] (fetch_revoked_certificates env (revoked_url issuer.id))
    now ← reads (λ w. w.now)
    content ← create_response issuer (ocsp_template serial now (revoked_time serial listed))
    keep_response key (record { content = content; expires_at = now + 3600 })
    pure (ocsp_response content)

  -- The request, and the intermediate that it asks.
  unfoldable pub read_question : Request → Exec Response (OcspRequest × Ca env)
  read_question r = do
    body ← lift r.body (http_error "invalid request" 400)
    req ← lift (env.parse_ocsp body) (http_error "invalid ocsp request" 400)
    cas ← or_else (load_all_intermediates env) (λ _. http_error "failed to load intermediates" 500)
    issuer ← lift (find_issuer req cas) (http_error "issuer not found" 404)
    pure (req, issuer)

  unfoldable pub answer : ℕ → Ca env → Exec Response Response
  unfolding fresh_content renew
  answer serial issuer w =
      let key : String = build_cache_key (to_hex serial) issuer.id in
      let hit : Option String = fresh_content w.now (lookup key w.ocsp_cache) in
      elim hit [ some content ↦ (ok (ocsp_response content), w) | none ↦ renew serial issuer key w ]

  -- OCSPHandler
  unfoldable pub ocsp_handler : Request → World → Response × World
  unfolding read_question answer
  ocsp_handler r w =
      let (out, v) = (read_question r >>= λ (req, issuer). answer (env.ocsp_serial req) issuer) w in
      (merge out, v)
