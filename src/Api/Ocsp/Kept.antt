-- ===== src/Api/Ocsp/Kept.antt =====
-- internal/api/ocsp_handler.go: what the responses that are kept stand for.
use ad_pki_ca.Base.{
  ℕ, suc, ◌+◌, ◌≤◌, ◌≡◌, ◌≢◌, ap, sym, ◌∙◌, Option, some, List, [], String, eq_iff, arith,
  Option-cases, inl, inr, lookup, insert, lookup-insert, ◌==◌, Bool-cases,
}
use ad_pki_ca.Hex.{to_hex}
use ad_pki_ca.Env.{Env, Revoked, OcspTemplate}
use ad_pki_ca.World.{World, Outcome, ok, err}
use ad_pki_ca.World.Laws.{Outcome-cases}
use ad_pki_ca.Ca.Loader.{Ca}
use ad_pki_ca.Ca.Intermediates.{load_all_intermediates}
use ad_pki_ca.Ca.Revocation.{fetch_revoked_certificates}
use ad_pki_ca.Ocsp.Cache.{CachedResponse}
use ad_pki_ca.Ocsp.Key.{build_cache_key}
use ad_pki_ca.Api.Http.{Request, Response, merge}
use ad_pki_ca.Api.Ocsp.{
  revoked_time, ocsp_template, ocsp_response, revoked_url, create_response, renew, answer,
  fresh_content, read_question, ocsp_handler,
}

module _ (env : Env) where
  open env use {OcspRequest}

  -- What the backend says of an issuer's certificates; nothing if it cannot be asked.
  unfoldable pub known_revocations : String → World → List Revoked
  known_revocations issuer_id w =
      elim (fetch_revoked_certificates env (revoked_url env issuer_id) w).0 [
        | ok listed ↦ listed
        | err _ ↦ []
      ]

  fetch-same : (url : String) (w : World) → (fetch_revoked_certificates env url w).1 ≡ w
  unfolding fetch_revoked_certificates
  fetch-same url w = ground arith

  -- The response that an issuer makes at the state's time.
  pub record IsNew (serial : ℕ) (issuer : Ca env) (w : World) (content : String) : Type 0 where
    pub signed :
        env.create_ocsp w.draws issuer.cert issuer.cert
          (ocsp_template serial w.now (revoked_time serial (known_revocations issuer.id w)))
          issuer.key
        ≡ some content

  abbrev pub kept_after : String → String → World → World
  kept_after key content w = record w {
    draws = suc w.draws;
    ocsp_cache = insert key (record { content = content; expires_at = w.now + 3600 }) w.ocsp_cache;
  }

  pub renew-eq-ok :
      (serial : ℕ) (issuer : Ca env) (key : String) (w v : World) (resp : Response)
      → renew env serial issuer key w ≡ (ok resp, v)
      → (content : String) × IsNew serial issuer w content
        × (resp ≡ ocsp_response content)
        × (v ≡ kept_after key content w)
  unfolding renew create_response known_revocations
  renew-eq-ok serial issuer key w v resp h =
      let same = fetch-same (revoked_url env issuer.id) w in
      let time : OcspTemplate =
        ocsp_template serial w.now (revoked_time serial (known_revocations issuer.id w)) in
      elim (Option-cases (env.create_ocsp w.draws issuer.cert issuer.cert time issuer.key)) [
        | inl none_made ↦ absurd (ground (arith, same, none_made, h))
        | inr (content, made) ↦ (
          content,
          record { signed = made },
          ground (arith, same, made, h),
          ground (arith, same, made, h),
        )
      ]

  pub renew-eq-err :
      (serial : ℕ) (issuer : Ca env) (key : String) (w v : World) (resp : Response)
      → renew env serial issuer key w ≡ (err resp, v)
      → (v.ocsp_cache ≡ w.ocsp_cache) × (v.now ≡ w.now)
  unfolding renew create_response
  renew-eq-err serial issuer key w v resp h =
      ground (arith, fetch-same (revoked_url env issuer.id) w)

  pub renew-refuses :
      (serial : ℕ) (issuer : Ca env) (key : String) (w : World) (resp : Response)
      → (renew env serial issuer key w).0 ≡ err resp
      → resp.status ≢ 200
  unfolding renew create_response
  renew-refuses serial issuer key w resp h =
      ground (arith, fetch-same (revoked_url env issuer.id) w)

  -- A kept response: made by an intermediate of the key's name, for the key's serial number, and at
  -- the time from which its hour counts.
  pub record IsMade (key : String) (e : CachedResponse) (now : ℕ) : Type 0 where
    pub serial : ℕ
    pub issuer : Ca env
    pub time : ℕ
    pub draw : ℕ
    pub since : Option ℕ
    pub same_key : key ≡ build_cache_key (to_hex serial) issuer.id
    pub signed :
        env.create_ocsp draw issuer.cert issuer.cert (ocsp_template serial time since) issuer.key
        ≡ some e.content
    pub expiry : e.expires_at ≡ time + 3600
    pub past : time ≤ now

  abbrev pub IsKept : World → Type 0
  IsKept w =
      (key : String) (e : CachedResponse) → lookup key w.ocsp_cache ≡ some e → IsMade key e w.now

  IsMade-later :
      {key : String} {e : CachedResponse} {now later : ℕ}
      → IsMade key e now
      → now ≤ later
      → IsMade key e later
  IsMade-later m h = record {
    serial = m.serial;
    issuer = m.issuer;
    time = m.time;
    draw = m.draw;
    since = m.since;
    same_key = m.same_key;
    signed = m.signed;
    expiry = m.expiry;
    past = omega (arith, h, m.past);
  }

  -- A new response may be kept.
  IsKept-insert :
      (serial : ℕ) (issuer : Ca env) (content : String) (w : World)
      → IsNew serial issuer w content
      → IsKept w
      → IsKept (kept_after (build_cache_key (to_hex serial) issuer.id) content w)
  IsKept-insert serial issuer content w made kept key e h =
      let same_key : String = build_cache_key (to_hex serial) issuer.id in
      let seen = sym (lookup-insert key same_key _ w.ocsp_cache) ∙ h in
      elim (Bool-cases (same_key == key)) [
        | inl same ↦ record {
          serial = serial;
          issuer = issuer;
          time = w.now;
          draw = w.draws;
          since = revoked_time serial (known_revocations issuer.id w);
          same_key = sym ((eq_iff same_key key).0 same);
          signed = made.signed ∙ ground (arith, seen, same);
          expiry = ground (arith, seen, same);
          past = omega arith;
        }
        | inr other ↦ kept key e (ground (arith, seen, other))
      ]

  -- No other change of the state than one of the cache matters, if the clock does not go back.
  pub IsKept-same :
      (w v : World) → v.ocsp_cache ≡ w.ocsp_cache → w.now ≤ v.now → IsKept w → IsKept v
  IsKept-same w v same later kept key e h =
      IsMade-later (kept key e (ap (lookup key) (sym same) ∙ h)) later

  renew-IsKept :
      (serial : ℕ) (issuer : Ca env) (w : World)
      → IsKept w
      → IsKept (renew env serial issuer (build_cache_key (to_hex serial) issuer.id) w).1
  renew-IsKept serial issuer w kept =
      let key : String = build_cache_key (to_hex serial) issuer.id in
      let out : Outcome Response Response × World = renew env serial issuer key w in
      elim (Outcome-cases out.0) [
        | inl (resp, k) ↦
            let (cache, clock) = renew-eq-err serial issuer key w out.1 resp (λ i. (k i, out.1)) in
            IsKept-same w out.1 cache (omega (arith, clock)) kept
        | inr (resp, k) ↦
            let (content, made, _, after) =
              renew-eq-ok serial issuer key w out.1 resp (λ i. (k i, out.1)) in
            IsKept-same (kept_after key content w) out.1 (ap (λ v. v.ocsp_cache) after)
              (ground (arith, after)) (IsKept-insert serial issuer content w made kept)
      ]

  answer-IsKept :
      (serial : ℕ) (issuer : Ca env) (w : World) → IsKept w → IsKept (answer env serial issuer w).1
  unfolding answer
  answer-IsKept serial issuer w kept =
      let key : String = build_cache_key (to_hex serial) issuer.id in
      let v : World = (answer env serial issuer w).1 in
      elim (Option-cases (fresh_content env w.now (lookup key w.ocsp_cache))) [
        | inl over ↦
            let new : World = (renew env serial issuer key w).1 in
            let same : v ≡ new = ground (arith, over) in
            IsKept-same new v (ap (λ u. u.ocsp_cache) same) (ground (arith, same))
              (renew-IsKept serial issuer w kept)
        | inr (content, hit) ↦
            let same : v ≡ w = ground (arith, hit) in
            IsKept-same w v (ap (λ u. u.ocsp_cache) same) (ground (arith, same)) kept
      ]

  pub read_question-same : (r : Request) (w : World) → (read_question env r w).1 ≡ w
  unfolding read_question load_all_intermediates
  read_question-same r w = ground arith

  -- How the handler answers a request that it can read.
  pub ocsp_handler-answer :
      (r : Request) (w : World) (req : OcspRequest) (issuer : Ca env)
      → (read_question env r w).0 ≡ ok (req, issuer)
      → ocsp_handler env r w ≡ (
        merge (answer env (env.ocsp_serial req) issuer w).0,
        (answer env (env.ocsp_serial req) issuer w).1,
      )
  unfolding ocsp_handler
  ocsp_handler-answer r w req issuer h = ground (arith, h, read_question-same r w)

  -- The handler keeps what it says of the responses.
  pub ocsp_handler-IsKept : (r : Request) (w : World) → IsKept w → IsKept (ocsp_handler env r w).1
  unfolding ocsp_handler
  ocsp_handler-IsKept r w kept =
      let v : World = (ocsp_handler env r w).1 in
      elim (Outcome-cases (read_question env r w).0) [
        | inl (e, k) ↦
            let same : v ≡ w = ground (arith, k, read_question-same r w) in
            IsKept-same w v (ap (λ u. u.ocsp_cache) same) (ground (arith, same)) kept
        | inr ((req, issuer), k) ↦
            let new : World = (answer env (env.ocsp_serial req) issuer w).1 in
            let same : v ≡ new = ground (arith, ocsp_handler-answer r w req issuer k) in
            IsKept-same new v (ap (λ u. u.ocsp_cache) same) (ground (arith, same))
              (answer-IsKept (env.ocsp_serial req) issuer w kept)
      ]
