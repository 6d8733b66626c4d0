-- ===== src/Ca/Request.antt =====
-- internal/ca/csr.go, internal/ca/csr_builder.go, internal/ca/key.go and internal/crypto/key.go:
-- reading a certificate request, and making one with its key.
use ad_pki_ca.Base.{ℕ, suc, Option, none, some, List, [], ◌∷◌, String, ◌==◌, ◌||◌, if◌then◌else◌}
use ad_pki_ca.Env.{Env, CsrTemplate, Curve, p256, p384, p521}
use ad_pki_ca.World.{Exec, ok, err, lift, ◌>>=◌}

-- The fields of CSRInput that CreateCSR reads; Email and IPAddresses it does not.
pub record CsrInput : Type 0 where
  pub common_name : String
  pub organization : String
  pub ou : String
  pub locality : String
  pub state : String
  pub country : String
  pub dns_names : List String

abbrev pub csr_template : CsrInput → CsrTemplate
csr_template i = record {
  subject = record {
    common_name = i.common_name;
    organization = i.organization ∷ [];
    organizational_unit = i.ou ∷ [];
    locality = i.locality ∷ [];
    province = i.state ∷ [];
    country = i.country ∷ [];
  };
  dns_names = i.dns_names;
}

unfoldable pub curve_of : String → Option Curve
curve_of name =
    if name == "" || name == "P256"
    then some p256
    else if name == "P384"
    then some p384
    else if name == "P521"
    then some p521
    else none

module _ (env : Env) where
  open env use {Csr, Key}

  -- ParseCSR
  unfoldable pub parse_csr_pem : String → Exec String Csr
  parse_csr_pem pem = do
    der ← lift (env.decode_pem pem) "invalid CSR"
    csr ← lift (env.parse_csr der) "parse"
    λ w. if env.csr_signed csr then (ok csr, w) else (err "invalid CSR signature", w)

  -- A draw from the random source.
  abbrev drawn : Option Key → Exec String Key
  drawn none w = (err "rand", record w { draws = suc w.draws })
  drawn (some key) w = (ok key, record w { draws = suc w.draws })

  -- GenerateKey
  unfoldable pub generate_key : String → ℕ → String → Exec String Key
  unfolding curve_of
  generate_key kind size curve w =
      if kind == "rsa"
      then drawn (env.generate_rsa w.draws size) w
      else if kind == "ecdsa"
      then (elim (curve_of curve) [
        | none ↦ (err "invalid curve", w)
        | some c ↦ drawn (env.generate_ecdsa w.draws c) w
      ])
      else (err "invalid key type", w)

  -- EncodePrivateKeyToPEM, of a key that GenerateKey made.
  unfoldable pub encode_private_key_to_pem : Key → String
  encode_private_key_to_pem key = elim (env.key_modulus key) [
    | some _ ↦ env.encode_pem "RSA PRIVATE KEY" (env.marshal_pkcs1 key)
    | none ↦ env.encode_pem "EC PRIVATE KEY" (env.marshal_ec key)
  ]

  -- CreateCSR. It passes no random source, so nothing is drawn.
  unfoldable pub create_csr : CsrInput → Key → Exec String Csr
  create_csr input key = do
    der ← lift (env.create_csr (csr_template input) key) "create request"
    lift (env.parse_csr der) "parse"
