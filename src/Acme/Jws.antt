-- ===== src/Acme/Jws.antt =====
-- internal/acme/jws.go: taking a signed request apart by its first signature. The header's other
-- fields are a map in go-jose, here a list of names and values.
use ad_pki_ca.Base.{Option, none, some, List, String, ◌==◌, if◌then◌else◌, lookup}
use ad_pki_ca.Json.{Json, str}
use ad_pki_ca.Env.{Env, Header, rsa_key, ecdsa_key, other_key}
use ad_pki_ca.World.{Exec, ok, err, pure, lift, ◌>>=◌, ◌>>◌}
use ad_pki_ca.Acme.Nonce.{consume}

-- `v, _ := ExtraHeaders[k].(string)`, none where it is no string
unfoldable pub extra_string : String → List (String × Json) → Option String
extra_string k headers = elim (lookup k headers) [
  | some (str s) ↦ some s
  | some _ ↦ none
  | none ↦ none
]

abbrev text_or_empty : Option String → String
text_or_empty none = ""
text_or_empty (some s) = s

-- `!Nonces.Consume(nonce)`
unfoldable pub spend : String → Exec String (Unit {0})
spend nonce w =
    let (fresh, n) = consume nonce w.now w.nonces in
    if fresh
    then (ok tt, record w { nonces = n })
    else (err "invalid or already used nonce", record w { nonces = n })

module _ (env : Env) where
  open env use {Jwk, Jws}

  pub record ParsedJws : Type 0 where
    pub account_url : String
    pub public_key : Option Jwk
    pub payload : String
    pub nonce : String
    pub url : String

  -- The text is read as JSON into the struct, or else as a signed message.
  abbrev read_jws : String → Option Jws
  read_jws body = elim (env.unmarshal_jws body) [
    | some jws ↦ some jws
    | none ↦ env.parse_signed body
  ]

  -- The payload of a message that holds its key, if the key is an RSA or ECDSA key and signed it.
  unfoldable pub verified_payload : Jws → Jwk → Exec String (String × Jwk)
  verified_payload jws jwk =
      let key : Jwk = env.public_jwk jwk in
      let signed : Exec String (String × Jwk) = (do
        payload ← lift (env.verify jws key) "JWS verification failed"
        pure (payload, key)) in
      elim (env.key_kind key) [
        | rsa_key ↦ signed
        | ecdsa_key ↦ signed
        | other_key ↦ λ w. (err "JWS verification failed: unsupported key type", w)
      ]

  -- `result`, before and after the key is looked at
  abbrev parsed : Header Jwk → String → Option Jwk → String → ParsedJws
  parsed protected nonce key payload = record {
    account_url = protected.key_id;
    public_key = key;
    payload = payload;
    nonce = nonce;
    url = text_or_empty (extra_string "url" protected.extra_headers);
  }

  -- With a key in the header its signature is checked; without one, the payload is taken as it is.
  unfoldable pub take_payload : Jws → Header Jwk → String → Option Jwk → Exec String ParsedJws
  unfolding verified_payload extra_string
  take_payload jws protected nonce none =
      pure (parsed protected nonce none (env.unsafe_payload jws))
  take_payload jws protected nonce (some jwk) = do
    (payload, key) ← verified_payload jws jwk
    pure (parsed protected nonce (some key) payload)

  -- What is done with the header's nonce, and then
  unfoldable pub after_nonce : Jws → Header Jwk → String → Exec String ParsedJws
  unfolding spend take_payload
  after_nonce jws protected nonce = do
    (λ w. if nonce == "" then (err "missing nonce in JWS header", w) else (ok tt, w))
    spend nonce
    take_payload jws protected nonce protected.json_web_key

  -- ParseAndVerifyJWS
  unfoldable pub parse_and_verify_jws : String → Exec String ParsedJws
  unfolding after_nonce
  parse_and_verify_jws body = do
    jws ← lift (read_jws body) "invalid JWS"
    protected ← lift (env.first_header jws) "no signatures in JWS"
    nonce ← lift (extra_string "nonce" protected.extra_headers) "missing nonce in JWS header"
    after_nonce jws protected nonce
