-- ===== src/Api/Challenge/Proof.antt =====
-- internal/api/acme_handler.go: when the goroutine's verdict on an authorization is "valid".
use ad_pki_ca.Base.{
  ℕ, ◌≡◌, refl, sym, true, false, none, some, List, any, strip_prefix, trim_space, Option-cases,
  ◌↔◌, ◌⊎◌, inl, inr, String, ◌<>◌, ◌==◌, eq_iff, arith, Bool-cases,
}
use std.Path.{subst}
use ad_pki_ca.Base64.{encode_url}
use ad_pki_ca.Env.{Env, HttpResponse}
use ad_pki_ca.World.{World, Outcome, ok, err}
use ad_pki_ca.World.Laws.{Outcome-cases}
use ad_pki_ca.Acme.Storage.{load_account}
use ad_pki_ca.Acme.Account.{load_account_jwk, key_thumbprint}
use ad_pki_ca.Acme.Challenge.{key_authorization, trim_wildcard, lookup_txt, dns_server}
use ad_pki_ca.Acme.Types.{Account, Challenge, Authorization, authz_valid}
use ad_pki_ca.Acme.Challenge.Validation.{
  IsShown, IsPublished, validate_http01_lem, validate_dns01_lem,
}
use ad_pki_ca.Api.Challenge.{validate, verdict}

verdict-valid : (out : Outcome String (Unit {0})) → verdict out ≡ authz_valid → out ≡ ok tt
verdict-valid (ok x) h = refl
verdict-valid (err e) h = absurd (ground (arith, eq_iff "invalid" "valid"))

module _ (env : Env) where
  open env use {Jwk}

  -- The token, a dot, and the thumbprint in base64 of the stored key of the authorization's account.
  pub record IsKeyText (a : Authorization) (c : Challenge) (w : World) (key_text : String)
      : Type 0 where
    pub account : Account
    pub jwk : Jwk
    pub thumb : List ℕ
    pub known : (load_account env a.account_id w).0 ≡ ok account
    pub key : env.parse_jwk account.public_key_jwk ≡ some jwk
    pub digest : env.thumbprint jwk ≡ some thumb
    pub joined : key_text ≡ c.token <> "." <> encode_url thumb

  key_authorization_lem :
      (a : Authorization) (c : Challenge) (w : World) (key_text : String)
      → ((key_authorization env a c w).0 ≡ ok key_text) ↔ IsKeyText a c w key_text
  unfolding key_authorization load_account_jwk key_thumbprint load_account
  key_authorization_lem a c w key_text = (
    (λ h. elim (Outcome-cases (load_account env a.account_id w).0) [
      | inl (e, k) ↦ absurd (ground (arith, k))
      | inr (acc, k) ↦ elim (Option-cases (env.parse_jwk acc.public_key_jwk)) [
        | inl n ↦ absurd (ground (arith, k, n))
        | inr (jwk, p) ↦ elim (Option-cases (env.thumbprint jwk)) [
          | inl n ↦ absurd (ground (arith, k, p, n))
          | inr (thumb, t) ↦ record {
            account = acc;
            jwk = jwk;
            thumb = thumb;
            known = k;
            key = p;
            digest = t;
            joined = ground (arith, k, p, t);
          }
        ]
      ]
    ]),
    λ s. ground (arith, s.known, s.key, s.digest, s.joined),
  )

  -- The server of the identifier answers the challenge's address with status 200 and that text, but
  -- for white space at its ends.
  pub record IsServed (a : Authorization) (c : Challenge) (w : World) : Type 0 where
    pub key_text : String
    pub right : IsKeyText a c w key_text
    pub resp : HttpResponse
    pub body : String
    pub answered :
        env.http_get w.now
          ("http://" <> a.identifier.value <> "/.well-known/acme-challenge/" <> c.token)
        ≡ some resp
    pub status : resp.status_code ≡ 200
    pub said : resp.body ≡ some body
    pub same : trim_space body ≡ key_text

  -- The identifier without a wildcard's "*.".
  abbrev pub IsDomain : Authorization → String → Type 0
  IsDomain a domain =
      (strip_prefix "*." a.identifier.value ≡ some domain)
      ⊎ ((strip_prefix "*." a.identifier.value ≡ none) × (domain ≡ a.identifier.value))

  IsDomain-iff : (a : Authorization) → IsDomain a (trim_wildcard a.identifier.value)
  unfolding trim_wildcard
  IsDomain-iff a = elim (Option-cases (strip_prefix "*." a.identifier.value)) [
    | inl plain_name ↦ inr (plain_name, ground (arith, plain_name))
    | inr (rest, starred) ↦ inl (ground (arith, starred))
  ]

  same_domain :
      (a : Authorization) (domain : String)
      → IsDomain a domain
      → trim_wildcard a.identifier.value ≡ domain
  unfolding trim_wildcard
  same_domain a domain (inl starred) = ground (arith, starred)
  same_domain a domain (inr (plain_name, same)) = ground (arith, plain_name, same)

  -- A TXT record under the domain's challenge name is the digest of that text, in base64.
  pub record IsInDns (a : Authorization) (c : Challenge) (w : World) : Type 0 where
    pub key_text : String
    pub right : IsKeyText a c w key_text
    pub domain : String
    pub named : IsDomain a domain
    pub records : List String
    pub answered :
        (lookup_txt env ("_acme-challenge." <> domain) (dns_server env w) w).0 ≡ ok records
    pub one : any (λ r. r == encode_url (env.sha256 key_text)) records ≡ true

  IsShown-IsServed :
      (a : Authorization) (c : Challenge) (w : World) → IsShown env a c w → IsServed a c w
  IsShown-IsServed a c w (ka, resp, body, k, g, s, b, t) = record {
    key_text = ka;
    right = (key_authorization_lem a c w ka).0 k;
    resp = resp;
    body = body;
    answered = g;
    status = s;
    said = b;
    same = t;
  }

  IsPublished-IsInDns :
      (a : Authorization) (c : Challenge) (w : World) → IsPublished env a c w → IsInDns a c w
  IsPublished-IsInDns a c w (ka, records, k, l, o) = record {
    key_text = ka;
    right = (key_authorization_lem a c w ka).0 k;
    domain = trim_wildcard a.identifier.value;
    named = IsDomain-iff a;
    records = records;
    answered = l;
    one = o;
  }

  shown : (a : Authorization) (c : Challenge) (w : World) → IsServed a c w → IsShown env a c w
  shown a c w s = (
    s.key_text,
    s.resp,
    s.body,
    (key_authorization_lem a c w s.key_text).1 s.right,
    s.answered,
    s.status,
    s.said,
    s.same,
  )

  published :
      (a : Authorization) (c : Challenge) (w : World) → IsInDns a c w → IsPublished env a c w
  published a c w s = (
    s.key_text,
    s.records,
    (key_authorization_lem a c w s.key_text).1 s.right,
    subst (λ d. (lookup_txt env ("_acme-challenge." <> d) (dns_server env w) w).0 ≡ ok s.records)
        (sym (same_domain a s.domain s.named)) s.answered,
    s.one,
  )

  -- The proof of control over the identifier that a challenge of its type asks for.
  abbrev pub IsProved : Authorization → Challenge → World → Type 0
  IsProved a c w = ((c.kind ≡ "http-01") × IsServed a c w) ⊎ ((c.kind ≡ "dns-01") × IsInDns a c w)

  validate-unsupported :
      (a : Authorization) (c : Challenge) (w : World)
      → (c.kind == "http-01") ≡ false
      → (c.kind == "dns-01") ≡ false
      → (validate env a c w).0 ≡ err ("unsupported challenge type: " <> c.kind)
  unfolding validate
  validate-unsupported a c w f g = rw (f, g) refl

  -- The verdict on an authorization is "valid" exactly if the proof that the challenge's type asks for
  -- is there: for "http-01" the key authorization, the token, a dot and the thumbprint of the
  -- account's key, at the server of the identifier; for "dns-01" its digest in a TXT record of the
  -- identifier without a wildcard. For any other type it is not.
  pub verdict-validate :
      (a : Authorization) (c : Challenge) (w : World)
      → (verdict (validate env a c w).0 ≡ authz_valid) ↔ IsProved a c w
  unfolding validate
  verdict-validate a c w = (
    (λ h. elim (Bool-cases (c.kind == "http-01")) [
      | inl http ↦ inl (
        ground (arith, eq_iff c.kind "http-01"),
        IsShown-IsServed a c w ((validate_http01_lem env a c w).0 (verdict-valid _ (ground arith))),
      )
      | inr no_http ↦ elim (Bool-cases (c.kind == "dns-01")) [
        | inl dns ↦ inr (
          ground (arith, eq_iff c.kind "dns-01"),
          IsPublished-IsInDns a c w
              ((validate_dns01_lem env a c w).0 (verdict-valid _ (ground arith))),
        )
        | inr no_dns ↦
            absurd (
              ground
                (arith, h, validate-unsupported a c w no_http no_dns, eq_iff "invalid" "valid"))
      ]
    ]),
    elim [
      | inl (http, there) ↦
          ground
            (arith, (validate_http01_lem env a c w).1 (shown a c w there), eq_iff c.kind "http-01")
      | inr (dns, there) ↦ ground (
        arith,
        (validate_dns01_lem env a c w).1 (published a c w there),
        eq_iff c.kind "dns-01",
        eq_iff c.kind "http-01",
        eq_iff "dns-01" "http-01",
      )
    ],
  )
