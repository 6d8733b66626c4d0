-- ===== src/Api/Tsa/Stamp.antt =====
-- internal/api/timestamp_handler.go: what a timestamp says.
use ad_pki_ca.Base.{
  ℕ, ◌≡◌, refl, [], ◌∷◌, sym, ap, ◌*◌, some, String, ◌==◌, true, arith, eq_iff, Option-cases, inl,
  inr,
}
use std.Path.{subst}
use ad_pki_ca.Env.{Env, Timestamp}
use ad_pki_ca.World.{World, Exec, ok, pure, reads, require, lift, or_else, ◌>>=◌}
use ad_pki_ca.World.Laws.{>>=-eq-ok, or_else-eq-ok}
use ad_pki_ca.Ca.Loader.{Ca, read_bytes, load_ca_from_pem}
use ad_pki_ca.Ca.Tsa.{load_tsa_certificate}
use ad_pki_ca.Api.Http.{Request, Response, Body, plain, http_error, plain_response, merge}
use ad_pki_ca.Api.Http.Refusal.{
  Refuses, >>=-Refuses, or_else-Refuses, lift-Refuses, pure-Refuses, reads-Refuses, require-Refuses,
  merge-200,
}
use ad_pki_ca.Api.Tsa.{
  limited, method_error, timestamp_of, create_stamp, stamp_request, timestamp_handler,
}

module _ (env : Env) where
  open env use {TsRequest}

  -- A timestamp of the request's digest with its nonce, at a time, under the authority's policy
  -- 1.3.6.1.4.1.99999.1.
  pub record IsStampOf (request : TsRequest) (now : ℕ) (t : Timestamp) : Type 0 where
    pub algorithm : t.hash_algorithm ≡ env.ts_hash_algorithm request
    pub digest : t.hashed_message ≡ env.ts_hashed_message request
    pub nonce : t.nonce ≡ env.ts_nonce request
    pub time : t.time ≡ now
    pub certificate : t.add_tsa_certificate ≡ true
    pub policy : t.policy ≡ 1 ∷ 3 ∷ 6 ∷ 1 ∷ 4 ∷ 1 ∷ 99999 ∷ 1 ∷ []

  -- What an answer 200 with a body stands for.
  pub record IsStamped (r : Request) (w : World) (answer : Body) : Type 0 where
    pub post : r.method ≡ "POST"
    pub sent : String
    pub body : limited (10 * 1024 * 1024) r.body ≡ some sent
    pub request : TsRequest
    pub parsed : env.parse_timestamp sent ≡ some request
    pub ca : Ca env
    pub loaded : (load_tsa_certificate env w).0 ≡ ok ca
    pub signer : env.is_signer ca.key ≡ true
    pub der : String
    pub stamp : Timestamp
    pub of_request : IsStampOf request w.now stamp
    pub signed : env.create_timestamp w.draws stamp ca.cert ca.key ≡ some der
    pub answered : answer ≡ plain der

  load_tsa_certificate-same : (w : World) → (load_tsa_certificate env w).1 ≡ w
  unfolding load_tsa_certificate read_bytes load_ca_from_pem
  load_tsa_certificate-same w = ground arith

  abbrev unavailable : String → Response
  unavailable _ = http_error "TSA certificate not available — generate one first" 503

  abbrev unsigned : Response
  unsigned = http_error "TSA key is not a valid signer" 500

  create_stamp-Refuses : (t : Timestamp) (ca : Ca env) → Refuses (create_stamp env t ca)
  unfolding create_stamp
  create_stamp-Refuses t ca w e h = ground arith

  abbrev signing : TsRequest → Ca env → ℕ → Unit {0} → Exec Response Response
  signing req ca now _ = create_stamp env (timestamp_of env req now) ca >>= λ der.
      pure (plain_response 200 "application/timestamp-reply" der)

  stamp_request-Refuses : (r : Request) → Refuses (stamp_request env r)
  unfolding stamp_request
  stamp_request-Refuses r =
      >>=-Refuses (require (r.method == "POST") method_error) _
        (require-Refuses (r.method == "POST") method_error (λ h. ground arith))
        λ _.
          >>=-Refuses
            (lift (limited (10 * 1024 * 1024) r.body) (http_error "failed to read request" 400)) _
            (lift-Refuses (limited (10 * 1024 * 1024) r.body)
              (http_error "failed to read request" 400) (λ h. ground arith))
            λ body.
              >>=-Refuses
                (lift (env.parse_timestamp body) (http_error "invalid timestamp request" 400)) _
                (lift-Refuses (env.parse_timestamp body)
                  (http_error "invalid timestamp request" 400) (λ h. ground arith))
                λ req.
                  >>=-Refuses (or_else (load_tsa_certificate env) unavailable) _
                    (or_else-Refuses (load_tsa_certificate env) unavailable (λ e h. ground arith))
                    λ ca.
                      >>=-Refuses (reads (λ w. w.now))
                        (λ now. require (env.is_signer ca.key) unsigned >>= signing req ca now)
                        (reads-Refuses (λ w. w.now))
                        λ now.
                          >>=-Refuses (require (env.is_signer ca.key) unsigned) _
                            (require-Refuses (env.is_signer ca.key) unsigned (λ h. ground arith))
                            λ _.
                              >>=-Refuses (create_stamp env (timestamp_of env req now) ca)
                                (λ der. pure (plain_response 200 "application/timestamp-reply" der))
                                (create_stamp-Refuses (timestamp_of env req now) ca)
                                λ der.
                                  pure-Refuses
                                    (plain_response 200 "application/timestamp-reply" der)

  stamp_request-IsStamped :
      (r : Request) (w v : World) (resp : Response)
      → stamp_request env r w ≡ (ok resp, v)
      → IsStamped r w resp.body
  unfolding stamp_request create_stamp
  stamp_request-IsStamped r w v resp h =
      let (_, w₁, a, h₁) = >>=-eq-ok (require (r.method == "POST") method_error) _ w v resp h in
      let same₁ : w₁ ≡ w = ground (arith, a) in
      let (sent, w₂, b, h₂) =
        >>=-eq-ok
          (lift (limited (10 * 1024 * 1024) r.body) (http_error "failed to read request" 400)) _ w₁
          v resp h₁ in
      let same₂ : w₂ ≡ w = ground (arith, b, same₁) in
      let (req, w₃, c, h₃) =
        >>=-eq-ok (lift (env.parse_timestamp sent) (http_error "invalid timestamp request" 400)) _
          w₂ v resp h₂ in
      let same₃ : w₃ ≡ w = ground (arith, c, same₂) in
      let (ca, w₄, d, h₄) =
        >>=-eq-ok (or_else (load_tsa_certificate env) unavailable) _ w₃ v resp h₃ in
      let loaded = or_else-eq-ok (load_tsa_certificate env) unavailable w₃ w₄ ca d in
      let same₄ : w₄ ≡ w = ground (arith, loaded, load_tsa_certificate-same w₃, same₃) in
      let (_, w₅, e, h₅) =
        >>=-eq-ok (require (env.is_signer ca.key) unsigned) (signing req ca w₄.now) w₄ v resp h₄ in
      let same₅ : w₅ ≡ w = ground (arith, e, same₄) in
      elim (Option-cases
        (env.create_timestamp w.draws (timestamp_of env req w.now) ca.cert ca.key)) [
          | inl n ↦ absurd (ground (arith, n, same₅, same₄, h₅))
          | inr (der, made) ↦ record {
            post = (eq_iff r.method "POST").0 (ground (arith, a));
            sent = sent;
            body = ground (arith, b);
            request = req;
            parsed = ground (arith, c);
            ca = ca;
            loaded = ground (arith, loaded, same₃);
            signer = ground (arith, e);
            der = der;
            stamp = timestamp_of env req w.now;
            of_request = record {
              algorithm = refl;
              digest = refl;
              nonce = refl;
              time = refl;
              certificate = refl;
              policy = refl;
            };
            signed = made;
            answered = ground (arith, made, same₅, same₄, h₅);
          }
        ]

  -- The timestamp handler answers 200 only to a POST with a request of at most 10 MiB that it can read, and
  -- then with a token that the stored authority signed: for the request's digest and nonce, at the
  -- present time, with the authority's certificate and its policy.
  pub timestamp_handler-IsStamped :
      (r : Request) (w : World)
      → (timestamp_handler env r w).0.status ≡ 200
      → IsStamped r w (timestamp_handler env r w).0.body
  unfolding timestamp_handler
  timestamp_handler-IsStamped r w h =
      let (resp, k) = merge-200 (stamp_request env r) w (stamp_request-Refuses r) h in
      let made =
        stamp_request-IsStamped r w (stamp_request env r w).1 resp
          (λ i. (k i, (stamp_request env r w).1)) in
      subst (λ b. IsStamped r w b) (ap (λ o. (merge o).body) (sym k)) made
