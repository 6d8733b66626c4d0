-- ===== src/Acme/Challenge/Validation.antt =====
-- internal/acme/challenge.go: what a validation has seen when it succeeds.
use ad_pki_ca.Base.{
  true, some, ◌≡◌, ◌↔◌, List, String, ◌==◌, eq_iff, any, arith, Option-cases, inl, inr, trim_space,
}
use ad_pki_ca.Env.{Env, HttpResponse}
use ad_pki_ca.World.{World, ok}
use ad_pki_ca.World.Laws.{Outcome-cases}
use ad_pki_ca.Acme.Types.{Challenge, Authorization}
use ad_pki_ca.Acme.Storage.{load_account}
use ad_pki_ca.Acme.Account.{load_account_jwk}
use ad_pki_ca.Acme.Challenge.{
  key_authorization, validate_http01, validate_dns01, lookup_txt, http_url, txt_domain,
  expected_txt, dns_server,
}

module _ (env : Env) where
  key_authorization-world :
      (a : Authorization) (c : Challenge) (w : World) → (key_authorization env a c w).1 ≡ w
  unfolding key_authorization load_account load_account_jwk
  key_authorization-world a c w = ground arith

  pub validate_http01-world :
      (a : Authorization) (c : Challenge) (w : World) → (validate_http01 env a c w).1 ≡ w
  unfolding validate_http01
  validate_http01-world a c w = ground (arith, key_authorization-world a c w)

  pub validate_dns01-world :
      (a : Authorization) (c : Challenge) (w : World) → (validate_dns01 env a c w).1 ≡ w
  unfolding validate_dns01 lookup_txt
  validate_dns01-world a c w = ground (arith, key_authorization-world a c w)

  -- A key authorization that the server of the identifier shows at the challenge's address.
  abbrev pub IsShown : Authorization → Challenge → World → Type 0
  IsShown a c w =
      (key_auth : String) × (resp : HttpResponse) × (body : String) × ((key_authorization env a c
          w).0
        ≡ ok key_auth)
      × (env.http_get w.now (http_url env a c) ≡ some resp)
      × (resp.status_code ≡ 200)
      × (resp.body ≡ some body)
      × (trim_space body ≡ key_auth)

  validate_http01-IsShown :
      (a : Authorization) (c : Challenge) (w : World)
      → (validate_http01 env a c w).0 ≡ ok tt
      → IsShown a c w
  unfolding validate_http01
  validate_http01-IsShown a c w h = elim (Outcome-cases (key_authorization env a c w).0) [
    | inl (e, k) ↦ absurd (ground arith)
    | inr (ka, k) ↦ elim (Option-cases (env.http_get w.now (http_url env a c))) [
      | inl g ↦ absurd (ground (arith, key_authorization-world a c w))
      | inr (resp, g) ↦ elim (Option-cases resp.body) [
        | inl b ↦ absurd (ground (arith, key_authorization-world a c w))
        | inr (body, b) ↦ (
          ka,
          resp,
          body,
          k,
          g,
          ground (arith, key_authorization-world a c w),
          b,
          ground (arith, key_authorization-world a c w, eq_iff (trim_space body) ka),
        )
      ]
    ]
  ]

  -- HTTP-01 succeeds exactly if the account's key gives the key authorization of the challenge's token,
  -- and the identifier's server answers the challenge's address with status 200 and, but for white
  -- space at its ends, exactly that text.
  pub validate_http01_lem :
      (a : Authorization) (c : Challenge) (w : World)
      → ((validate_http01 env a c w).0 ≡ ok tt) ↔ IsShown a c w
  unfolding validate_http01
  validate_http01_lem a c w = (
    validate_http01-IsShown a c w,
    λ (ka, resp, body, k, g, s, b, t).
        ground (arith, k, g, s, b, t, key_authorization-world a c w, eq_iff (trim_space body) ka),
  )

  -- The TXT records under the name of the challenge hold the text that the key authorization calls for.
  abbrev pub IsPublished : Authorization → Challenge → World → Type 0
  IsPublished a c w =
      (key_auth : String) × (records : List String) × ((key_authorization env a c w).0
        ≡ ok key_auth)
      × ((lookup_txt env (txt_domain env a) (dns_server env w) w).0 ≡ ok records)
      × (any (λ record'. record' == expected_txt env key_auth) records ≡ true)

  validate_dns01-IsPublished :
      (a : Authorization) (c : Challenge) (w : World)
      → (validate_dns01 env a c w).0 ≡ ok tt
      → IsPublished a c w
  unfolding validate_dns01
  validate_dns01-IsPublished a c w h = elim (Outcome-cases (key_authorization env a c w).0) [
    | inl (e, k) ↦ absurd (ground arith)
    | inr (ka, k) ↦
        elim (Outcome-cases (lookup_txt env (txt_domain env a) (dns_server env w) w).0) [
          | inl (e, l) ↦ absurd (ground (arith, key_authorization-world a c w))
          | inr (rs, l) ↦ (ka, rs, k, l, ground (arith, key_authorization-world a c w))
        ]
  ]

  -- DNS-01 succeeds exactly if the account's key gives the key authorization of the challenge's token,
  -- and one of the TXT records that the first configured server (or 8.8.8.8) has under the
  -- identifier's challenge name, a wildcard's "*." taken off, is the digest of that text.
  pub validate_dns01_lem :
      (a : Authorization) (c : Challenge) (w : World)
      → ((validate_dns01 env a c w).0 ≡ ok tt) ↔ IsPublished a c w
  unfolding validate_dns01
  validate_dns01_lem a c w = (
    validate_dns01-IsPublished a c w,
    λ (ka, rs, k, l, t). ground (arith, k, l, t, key_authorization-world a c w),
  )
