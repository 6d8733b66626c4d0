-- ===== src/Ca/Loader.antt =====
-- internal/ca/ca.go and internal/ca/loader_pem.go: an intermediate, from its PEM files. A name of
-- the intermediate's directory is a part of the path, as `filepath.Join` cleans it.
use ad_pki_ca.Config.{base_path}
use ad_pki_ca.Base.{Option, none, some, [], ◌∷◌, String}
use ad_pki_ca.Env.{Env}
use ad_pki_ca.Files.{FilePath, Content, json, text, join, read_file}
use ad_pki_ca.World.{Exec, pure, lift, ◌>>=◌}

module _ (env : Env) where
  open env use {Cert, Key}

  pub record Ca : Type 0 where
    pub id : String
    pub cert : Cert
    pub key : Key

  abbrev pub bytes_of : Option Content → Option String
  bytes_of none = none
  bytes_of (some (json j)) = some (env.json_text j)
  bytes_of (some (text s)) = some s

  -- os.ReadFile, as bytes
  unfoldable pub read_bytes : FilePath → Exec String String
  read_bytes path w = lift (bytes_of (read_file path w.fs)) "read" w

  abbrev pub intermediate_cert_path : String → FilePath
  intermediate_cert_path id = join (base_path env) ("intermediates" ∷ id ∷ "intermediate.crt" ∷ [])

  abbrev pub intermediate_key_path : String → FilePath
  intermediate_key_path id =
      join (base_path env) ("intermediates" ∷ id ∷ "private" ∷ "intermediate.key" ∷ [])

  -- The three formats of a private key, tried in turn.
  unfoldable pub parse_private_key : String → Option Key
  parse_private_key der = elim (env.parse_pkcs8 der) [
    | some key ↦ some key
    | none ↦ elim (env.parse_pkcs1 der) [ some key ↦ some key | none ↦ env.parse_ec der ]
  ]

  unfoldable pub load_ca_from_pem : String → String → Exec String Ca
  unfolding parse_private_key
  load_ca_from_pem cert_pem key_pem = do
    cert_der ← lift (env.decode_pem cert_pem) "invalid cert PEM"
    cert ← lift (env.parse_cert cert_der) "parse"
    key_der ← lift (env.decode_pem key_pem) "invalid key PEM"
    key ← lift (parse_private_key key_der) "unsupported private key format"
    pure (record { id = ""; cert = cert; key = key })
