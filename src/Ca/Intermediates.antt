-- ===== src/Ca/Intermediates.antt =====
-- internal/ca/loader.go: an intermediate by its two files, and all intermediates of the base path.
-- Reading changes nothing, so the state before is the state after.
use ad_pki_ca.Config.{base_path}
use ad_pki_ca.Base.{none, some, List, [], ◌∷◌, String, if◌then◌else◌}
use ad_pki_ca.Env.{Env}
use ad_pki_ca.Files.{FilePath, Entry, join, read_dir}
use ad_pki_ca.World.{World, Exec, Outcome, ok, err, pure, lift, ◌>>=◌}
use ad_pki_ca.Ca.Loader.{
  Ca, read_bytes, intermediate_cert_path, intermediate_key_path, load_ca_from_pem,
}

module _ (env : Env) where
  -- LoadCA
  unfoldable pub load_ca : FilePath → FilePath → Exec String (Ca env)
  load_ca cert_path key_path = do
    cert_pem ← read_bytes env cert_path
    cert_der ← lift (env.decode_pem cert_pem) "failed to parse cert PEM"
    cert ← lift (env.parse_cert cert_der) "failed to parse cert"
    key_pem ← read_bytes env key_path
    key_der ← lift (env.decode_pem key_pem) "failed to parse key PEM"
    key ← lift (env.parse_pkcs8 key_der) "failed to parse key"
    pure (record { id = ""; cert = cert; key = key })

  -- The intermediate in one directory, with the directory's name as its id.
  unfoldable pub load_intermediate : String → Exec String (Ca env)
  load_intermediate id = do
    cert_pem ← read_bytes env (intermediate_cert_path env id)
    key_pem ← read_bytes env (intermediate_key_path env id)
    ca ← load_ca_from_pem env cert_pem key_pem
    pure (record ca { id = id })

  abbrev with_loaded : Outcome String (Ca env) → List (Ca env) → List (Ca env)
  with_loaded (ok ca) cas = ca ∷ cas
  with_loaded (err _) cas = cas

  -- What is no directory, or cannot be loaded, is passed over.
  unfoldable pub load_each : List Entry → World → List (Ca env)
  unfolding load_intermediate
  load_each [] w = []
  load_each (e ∷ es) w =
      let rest = load_each es w in
      if e.is_dir then with_loaded (load_intermediate e.name w).0 rest else rest

  -- LoadAllIntermediates
  unfoldable pub load_all_intermediates : Exec String (List (Ca env))
  unfolding load_each
  load_all_intermediates w = elim (read_dir (join (base_path env) ("intermediates" ∷ [])) w.fs) [
    | none ↦ (err "read dir", w)
    | some entries ↦ (ok (load_each entries w), w)
  ]
