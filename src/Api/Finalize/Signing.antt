-- ===== src/Api/Finalize/Signing.antt =====
-- internal/api/acme_handler.go: what stands behind a certificate request that finalize takes.
use ad_pki_ca.Base.{true, some, ◌≡◌, String, arith, Option-cases, inl, inr}
use ad_pki_ca.Env.{Env}
use ad_pki_ca.World.{World, ok, pure, ◌>>=◌}
use ad_pki_ca.World.Laws.{>>=-eq-ok, Outcome-cases}
use ad_pki_ca.Acme.Types.{Account}
use ad_pki_ca.Acme.Nonce.Single.{IsFresh}
use ad_pki_ca.Acme.Storage.{load_account, read_json}
use ad_pki_ca.Acme.Account.{load_account_jwk}
use ad_pki_ca.Api.Http.{Request, extract_id}
use ad_pki_ca.Api.Signed.{
  Protected, decode_raw, decode_kid_header, open_header, read_header, authenticate, verify_body,
}
use ad_pki_ca.Api.Signed.Laws.{read_header_ok, spend_nonce_ok}
use std.Path.{subst}
use ad_pki_ca.Json.{Json, Fields, get, to_str, to_fields}
use ad_pki_ca.Api.Finalize.{decode_one, finalize_texts, read_csr, verified_csr}

module _ (env : Env) where
  open env use {Csr, Jwk, Jws}

  -- The body was signed by the stored key of the account that the header's `kid` names.
  pub record IsSigned (kid body : String) (w : World) (acc : Account) (payload : String)
      : Type 0 where
    pub known : (load_account env (extract_id kid "/acme/account/") w).0 ≡ ok acc
    pub jwk : Jwk
    pub jws : Jws
    pub key : env.parse_jwk acc.public_key_jwk ≡ some jwk
    pub parsed : env.parse_signed body ≡ some jws
    pub verified : env.verify jws jwk ≡ some payload

  pub authenticate-IsSigned :
      (kid body : String) (w v : World) (acc : Account) (payload : String)
      → authenticate env kid body w ≡ (ok (acc, payload), v)
      → IsSigned kid body w acc payload × (v ≡ w)
  unfolding authenticate load_account load_account_jwk verify_body
  authenticate-IsSigned kid body w v acc payload h =
      elim (Outcome-cases (load_account env (extract_id kid "/acme/account/") w).0) [
        | inl (e, k) ↦ absurd (ground (arith, k))
        | inr (acc', k) ↦ elim (Option-cases (env.parse_jwk acc'.public_key_jwk)) [
          | inl n ↦ absurd (ground (arith, k, n))
          | inr (jwk, j) ↦ elim (Option-cases (env.parse_signed body)) [
            | inl n ↦ absurd (ground (arith, k, j, n))
            | inr (jws, p) ↦ elim (Option-cases (env.verify jws jwk)) [
              | inl n ↦ absurd (ground (arith, k, j, p, n))
              | inr (said, q) ↦
                  let same : acc' ≡ acc = ground (arith, k, j, p, q) in
                  (
                    record {
                      known = ground (arith, k, same);
                      jwk = jwk;
                      jws = jws;
                      key = ground (arith, j, same);
                      parsed = p;
                      verified = ground (arith, k, j, p, q);
                    },
                    ground (arith, k, j, p, q),
                  )
            ]
          ]
        ]
      ]

  -- The request that the payload's field "csr" holds, in base64.
  pub record IsCsrOf (payload : String) (csr : Csr) : Type 0 where
    pub doc : Json
    pub fields : Fields
    pub sent : String
    pub der : String
    pub read : env.parse_text payload ≡ some doc
    pub struct : to_fields doc ≡ some fields
    pub field : to_str (get "csr" fields) ≡ some sent
    pub decoded : env.decode_url sent ≡ some der
    pub parsed : env.parse_csr der ≡ some csr

  read_csr_ok :
      (payload : String) (w v : World) (csr : Csr)
      → read_csr env payload w ≡ (ok csr, v)
      → (env.csr_signed csr ≡ true) × IsCsrOf payload csr × (v ≡ w)
  unfolding read_csr decode_one
  read_csr_ok payload w v csr h = elim (Option-cases (env.parse_text payload)) [
    | inl n ↦ absurd (ground (arith, n))
    | inr (doc, a) ↦ elim (Option-cases (to_fields doc)) [
      | inl n ↦ absurd (ground (arith, a, n))
      | inr (fields, b) ↦ elim (Option-cases (to_str (get "csr" fields))) [
        | inl n ↦ absurd (ground (arith, a, b, n))
        | inr (sent, c) ↦ elim (Option-cases (env.decode_url sent)) [
          | inl n ↦ absurd (ground (arith, a, b, c, n))
          | inr (der, d) ↦ elim (Option-cases (env.parse_csr der)) [
            | inl n ↦ absurd (ground (arith, a, b, c, d, n))
            | inr (got, e) ↦ (
              ground (arith, a, b, c, d, e),
              record {
                doc = doc;
                fields = fields;
                sent = sent;
                der = der;
                read = a;
                struct = b;
                field = c;
                decoded = d;
                parsed = ground (arith, a, b, c, d, e);
              },
              ground (arith, a, b, c, d, e),
            )
          ]
        ]
      ]
    ]
  ]

  -- What stands behind a certificate request that finalize takes.
  pub record IsRequested (r : Request) (w : World) (acc : Account) (csr : Csr) : Type 0 where
    pub body : String
    pub header : Protected
    pub payload : String
    pub opened :
        (open_header env finalize_texts decode_raw decode_kid_header r w).0 ≡ ok (body, header)
    pub fresh : IsFresh header.nonce w.now w.nonces
    pub signed : IsSigned header.kid body w acc payload
    pub of_payload : IsCsrOf payload csr
    pub self_signed : env.csr_signed csr ≡ true

  -- Finalize takes a certificate request only from a body that carries a fresh nonce and is signed by
  -- the stored key of a known account, only the one in the field "csr" of the payload that was signed,
  -- and only if it bears its own key's signature.
  pub verified_csr-IsRequested :
      (r : Request) (w v : World) (acc : Account) (csr : Csr)
      → verified_csr env r w ≡ (ok (acc, csr), v)
      → IsRequested r w acc csr
  unfolding verified_csr load_account read_json
  verified_csr-IsRequested r w v acc csr h =
      let ((body, header), u, took, h₁) =
        >>=-eq-ok (read_header env finalize_texts decode_raw decode_kid_header r)
          (λ (body, header).
            (authenticate env header.kid body >>= λ (acc, payload).
            (read_csr env payload >>= λ csr. pure (acc, csr))))
          w v (acc, csr) h in
      let ((acc', payload), u', signed, h₂) =
        >>=-eq-ok (authenticate env header.kid body)
          (λ (acc, payload). (read_csr env payload >>= λ csr. pure (acc, csr))) u v (acc, csr) h₁ in
      let (csr', u″, got, h₃) =
        >>=-eq-ok (read_csr env payload) (λ csr. pure (acc', csr)) u' v (acc, csr) h₂ in
      let (opened, spent) =
        read_header_ok env finalize_texts decode_raw decode_kid_header r w u body header took in
      let (named, fresh, later) = spend_nonce_ok header.nonce w u spent in
      let (by, still) = authenticate-IsSigned header.kid body u u' acc' payload signed in
      let same : acc' ≡ acc = ground (arith, h₃) in
      record {
        body = body;
        header = header;
        payload = payload;
        opened = opened;
        fresh = fresh;
        signed = record {
          known = ground (arith, by.known, later, same);
          jwk = by.jwk;
          jws = by.jws;
          key = ground (arith, by.key, same);
          parsed = by.parsed;
          verified = by.verified;
        };
        of_payload =
            subst (λ c. IsCsrOf payload c) (ground (arith, h₃))
              (read_csr_ok payload u' u″ csr' got).1;
        self_signed = ground (arith, (read_csr_ok payload u' u″ csr' got).0, h₃);
      }
