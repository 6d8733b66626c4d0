-- ===== src/Ca/Chain.antt =====
-- internal/ca/chain.go: leaf, intermediate and root, one after the other.
use ad_pki_ca.Config.{base_path}
use ad_pki_ca.Base.{[], ◌∷◌, String, ◌<>◌}
use ad_pki_ca.Env.{Env}
use ad_pki_ca.Files.{FilePath, join}
use ad_pki_ca.World.{Exec, pure, ◌>>=◌}
use ad_pki_ca.Ca.Loader.{read_bytes, intermediate_cert_path}

module _ (env : Env) where
  abbrev pub root_path : FilePath
  root_path = join (base_path env) ("root" ∷ "root.crt" ∷ [])

  unfoldable pub build_chain : String → String → Exec String String
  unfolding read_bytes
  build_chain cert intermediate_id = do
    intermediate ← read_bytes env (intermediate_cert_path env intermediate_id)
    root ← read_bytes env root_path
    pure (cert <> intermediate <> root)
