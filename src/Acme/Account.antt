-- ===== src/Acme/Account.antt =====
-- internal/acme/account.go, with the random ids of internal/acme/order.go, which every part draws.
use ad_pki_ca.Config.{base_path}
use ad_pki_ca.Base.{ℕ, suc, Option, none, some, List, [], ◌∷◌, String, trim_space, replace_slashes}
use ad_pki_ca.Base64.{encode_url}
use ad_pki_ca.Env.{Env}
use ad_pki_ca.Files.{FilePath, join, parent}
use ad_pki_ca.World.{Exec, ok, err, pure, lift, ◌>>=◌, ◌>>◌}
use ad_pki_ca.Acme.Types.{Account, account_valid}
use ad_pki_ca.Acme.Storage.{ensure_dir, write_string_file, read_string_file, load_account}

module _ (env : Env) where
  open env use {Jwk}

  -- Some random bytes as a name: `NewOrderID` and its like, which differ in the number of bytes.
  unfoldable pub new_id : ℕ → Exec String String
  unfolding encode_url
  new_id n w = elim (env.random w.draws n) [
    | none ↦ (err "rand", record w { draws = suc w.draws })
    | some bytes ↦ (ok (encode_url bytes), record w { draws = suc w.draws })
  ]

  unfoldable pub new_account_id : Exec String String
  unfolding new_id
  new_account_id = new_id 12

  unfoldable pub key_thumbprint : Jwk → Option String
  unfolding encode_url
  key_thumbprint jwk = elim (env.thumbprint jwk) [
    | none ↦ none
    | some thumb ↦ some (encode_url thumb)
  ]

  unfoldable pub thumbprint_path : String → FilePath
  thumbprint_path thumb =
      join (base_path env) ("acme" ∷ "accounts" ∷ "by-key" ∷ replace_slashes thumb ∷ [])

  -- The account that the key's mapping file names; no file, no account.
  unfoldable pub find_account_by_key : Jwk → Exec String (Option Account)
  find_account_by_key jwk = do
    thumb ← lift (key_thumbprint jwk) "thumbprint failed"
    λ w. elim (read_string_file env (thumbprint_path thumb) w) [
      | none ↦ (ok none, w)
      | some id ↦ (do acc ← load_account env (trim_space id); pure (some acc)) w
    ]

  unfoldable pub save_account_key_mapping : String → Jwk → Exec String (Unit {0})
  save_account_key_mapping account_id jwk = do
    thumb ← lift (key_thumbprint jwk) "thumbprint failed"
    ensure_dir env (parent (thumbprint_path thumb))
    write_string_file env (thumbprint_path thumb) account_id

  unfoldable pub new_account : Jwk → List String → Exec String Account
  unfolding new_account_id
  new_account jwk contact = do
    id ← new_account_id
    jwk_json ← lift (env.marshal_jwk jwk) "marshal"
    pure (record {
      id = id;
      status = account_valid;
      contact = contact;
      public_key_jwk = jwk_json;
      created_at = 0;
    })

  unfoldable pub load_account_jwk : Account → Exec String Jwk
  load_account_jwk acc = lift (env.parse_jwk acc.public_key_jwk) "failed to parse account JWK"
