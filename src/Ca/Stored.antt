-- ===== src/Ca/Stored.antt =====
-- internal/storage/intermediate.go and internal/storage/root.go: the files of the CA's own certificates.
use ad_pki_ca.Config.{base_path}
use ad_pki_ca.Base.{String, [], ◌∷◌}
use ad_pki_ca.Env.{Env}
use ad_pki_ca.Files.{FilePath, join, mkdir_all}
use ad_pki_ca.World.{Exec, pure, on_fs, ◌>>◌}
use ad_pki_ca.Ca.Issued.{write_bytes}

module _ (env : Env) where
  abbrev pub intermediate_dir : String → FilePath
  intermediate_dir id = join (base_path env) ("intermediates" ∷ id ∷ [])

  abbrev pub stored_cert_path : String → FilePath
  stored_cert_path id = join (intermediate_dir id) ("intermediate.crt" ∷ [])

  abbrev pub stored_key_path : String → FilePath
  stored_key_path id = join (intermediate_dir id) ("private" ∷ "intermediate.key" ∷ [])

  -- StoreIntermediate
  unfoldable pub store_intermediate : String → String → String → Exec String (FilePath × FilePath)
  store_intermediate id cert key = do
    on_fs (mkdir_all (intermediate_dir id)) "mkdir"
    on_fs (mkdir_all (join (intermediate_dir id) ("private" ∷ []))) "mkdir"
    write_bytes env (stored_cert_path id) cert
    write_bytes env (stored_key_path id) key
    pure (stored_cert_path id, stored_key_path id)

  -- StoreRoot
  unfoldable pub store_root : String → Exec String (Unit {0})
  store_root cert = do
    on_fs (mkdir_all (join (base_path env) ("root" ∷ []))) "mkdir"
    write_bytes env (join (join (base_path env) ("root" ∷ [])) ("root.crt" ∷ [])) cert
