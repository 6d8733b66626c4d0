-- ===== src/Acme/Challenge.antt =====
-- internal/acme/challenge.go: looking a challenge up and validating it. A validation's error is
-- only looked at for being there, so the texts are those of the code without the values it formats
-- in. The debug prints are left out.
pub mod Validation
use ad_pki_ca.Base.{
  ℕ, suc, Option, none, some, List, [], ◌∷◌, String, ◌==◌, ◌<>◌, eqb, any, if◌then◌else◌,
  trim_space, strip_prefix, contains,
}
use ad_pki_ca.Base64.{encode_url}
use ad_pki_ca.Env.{Env, Answer, txt, other}
use ad_pki_ca.World.{World, Exec, ok, err, pure, lift, or_else, ◌>>=◌, ◌>>◌}
use ad_pki_ca.Acme.Types.{Authorization, Challenge}
use ad_pki_ca.Acme.Account.{load_account_jwk, key_thumbprint}
use ad_pki_ca.Acme.Settings.{fetch_acme_settings}
use ad_pki_ca.Acme.Storage.{
  acme_path, ensure_dir, write_string_file, read_string_file, load_account, load_authz,
}

-- `strings.Join(parts, "")`
unfoldable pub concat : List String → String
concat [] = ""
concat (s ∷ ss) = s <> concat ss

-- The TXT records among the answers.
unfoldable pub txt_records : List Answer → List String
unfolding concat
txt_records [] = []
txt_records (txt parts ∷ rest) = concat parts ∷ txt_records rest
txt_records (other ∷ rest) = txt_records rest

-- `strings.TrimPrefix(domain, "*.")`
unfoldable pub trim_wildcard : String → String
trim_wildcard domain = elim (strip_prefix "*." domain) [ none ↦ domain | some rest ↦ rest ]

-- The first challenge with an id, and its place.
unfoldable pub find_challenge : String → List Challenge → Option (ℕ × Challenge)
find_challenge id [] = none
find_challenge id (c ∷ cs) =
    if c.id == id
    then some (0, c)
    else elim (find_challenge id cs) [ none ↦ none | some (i, d) ↦ some (suc i, d) ]

module _ (env : Env) where
  -- `token.thumbprint`, from the stored key of the authorization's account.
  unfoldable pub key_authorization : Authorization → Challenge → Exec String String
  unfolding key_thumbprint
  key_authorization authz chall = do
    acc ← or_else (load_account env authz.account_id) (λ _. "account not found")
    jwk ← or_else (load_account_jwk env acc) (λ _. "failed to load account key")
    thumb ← lift (key_thumbprint env jwk) "thumbprint failed"
    pure (chall.token <> "." <> thumb)

  abbrev pub http_url : Authorization → Challenge → String
  http_url authz chall =
      "http://" <> authz.identifier.value <> "/.well-known/acme-challenge/" <> chall.token

  unfoldable pub validate_http01 : Authorization → Challenge → Exec String (Unit {0})
  validate_http01 authz chall = do
    key_auth ← key_authorization authz chall
    resp ← (λ w. lift (env.http_get w.now (http_url authz chall)) "HTTP-01 request failed" w)
    if eqb resp.status_code 200 then pure tt else (λ w. (err "HTTP-01 returned status", w))
    got ← lift resp.body "failed to read HTTP-01 response"
    if trim_space got == key_auth
        then pure tt
        else (λ w. (err "HTTP-01 key authorization mismatch", w))

  unfoldable pub lookup_txt : String → String → Exec String (List String)
  unfolding txt_records
  lookup_txt domain dns_server w =
      let server : String = if contains ":" dns_server then dns_server else dns_server <> ":53" in
      elim (env.exchange w.now domain server) [
        | none ↦ (err "DNS query failed", w)
        | some answers ↦ (ok (txt_records answers), w)
      ]

  -- loadDNSServers
  unfoldable pub load_dns_servers : Exec String (List String)
  unfolding fetch_acme_settings
  load_dns_servers = do settings ← fetch_acme_settings env; pure settings.dns_servers

  -- The server that is asked: the first of the settings, or 8.8.8.8.
  abbrev first_server : List String → String
  first_server [] = "8.8.8.8"
  first_server (s ∷ ss) = s

  unfoldable pub dns_server : World → String
  unfolding load_dns_servers
  dns_server w = elim (load_dns_servers w).0 [
    | err _ ↦ "8.8.8.8"
    | ok servers ↦ first_server servers
  ]

  abbrev pub txt_domain : Authorization → String
  txt_domain authz = "_acme-challenge." <> trim_wildcard authz.identifier.value

  abbrev pub expected_txt : String → String
  expected_txt key_auth = encode_url (env.sha256 key_auth)

  unfoldable pub validate_dns01 : Authorization → Challenge → Exec String (Unit {0})
  validate_dns01 authz chall = do
    key_auth ← key_authorization authz chall
    records ←
        (λ w. or_else (lookup_txt (txt_domain authz) (dns_server w)) (λ _. "DNS lookup failed") w)
    if any (λ record'. record' == expected_txt key_auth) records
        then pure tt
        else (λ w. (err "DNS-01 TXT record not found", w))

  -- The authorization, the place of the challenge in it, and the challenge.
  unfoldable pub find_challenge_by_id : String → Exec String (Authorization × ℕ × Challenge)
  unfolding find_challenge
  find_challenge_by_id chall_id = do
    authz_id ← (λ w.
        lift (read_string_file env (acme_path env ("challenges" ∷ chall_id ∷ [])) w)
          "challenge not found" w)
    authz ← or_else (load_authz env authz_id) (λ _. "authz not found for challenge")
    (i, chall) ← lift (find_challenge chall_id authz.challenges) "challenge not found in authz"
    pure (authz, i, chall)

  unfoldable pub save_challenge_mapping : String → String → Exec String (Unit {0})
  save_challenge_mapping chall_id authz_id = do
    ensure_dir env (acme_path env ("challenges" ∷ []))
    write_string_file env (acme_path env ("challenges" ∷ chall_id ∷ [])) authz_id
