-- ===== src/Config.antt =====
-- internal/config/path.go: the directory that the service keeps its files in, as the text of the
-- environment variable and as the path that `filepath.Join` makes of it.
use ad_pki_ca.Base.{[], ◌∷◌, String, ◌==◌, if◌then◌else◌}
use ad_pki_ca.Env.{Env}
use ad_pki_ca.Files.{FilePath, join}

module _ (env : Env) where
  -- BasePath
  unfoldable pub base_dir : String
  base_dir = if env.base_variable == "" then "/var/lib/adpki" else env.base_variable

  unfoldable pub base_path : FilePath
  unfolding base_dir join
  base_path = join [] (base_dir ∷ [])
