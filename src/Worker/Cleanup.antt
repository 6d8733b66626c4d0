-- ===== src/Worker/Cleanup.antt =====
-- internal/worker/acme_cleanup_worker.go and internal/storage/acme.go.
pub mod Night
pub mod Removed
use ad_pki_ca.Config.{base_path}
use ad_pki_ca.Base.{
  ℕ, ◌+◌, ◌-◌, ◌*◌, ◌/◌, Option, none, some, List, [], ◌∷◌, String, ltb, if◌then◌else◌,
}
use ad_pki_ca.Env.{Env}
use ad_pki_ca.Files.{FilePath, Fs, Entry, join, read_dir, remove_file, mkdir_all}
use ad_pki_ca.World.{World, Exec, pure, on_fs, ◌>>=◌, ◌>>◌}

-- 30 days
abbrev pub month : ℕ
month = 2592000

-- `os.Remove` of one entry, if it is older than the cutoff; an error is passed over.
abbrev clear_entry : ℕ → FilePath → Entry → Fs → Fs
clear_entry cutoff dir e fs =
    if ltb e.mod_time cutoff
    then elim (remove_file (join dir (e.name ∷ [])) fs) [ none ↦ fs | some fs' ↦ fs' ]
    else fs

unfoldable pub clear_entries : ℕ → FilePath → List Entry → Fs → Fs
clear_entries cutoff dir [] fs = fs
clear_entries cutoff dir (e ∷ es) fs = clear_entries cutoff dir es (clear_entry cutoff dir e fs)

-- A directory that cannot be read is passed over.
unfoldable pub clear_dirs : ℕ → List FilePath → Fs → Fs
unfolding clear_entries
clear_dirs cutoff [] fs = fs
clear_dirs cutoff (dir ∷ dirs) fs =
    clear_dirs cutoff dirs
      (elim (read_dir dir fs) [ none ↦ fs | some entries ↦ clear_entries cutoff dir entries fs ])

module _ (env : Env) where
  -- The 02:00 of the day, or 24 hours later if it is over.
  unfoldable pub next_run : ℕ → ℕ
  next_run now = let next : ℕ = env.two_o_clock now in if ltb next now then next + 86400 else next

  abbrev acme_dir : String → FilePath
  acme_dir name = join (base_path env) ("acme" ∷ name ∷ [])

  abbrev pub cleaned_dirs : List FilePath
  cleaned_dirs = acme_dir "orders" ∷ acme_dir "authz" ∷ acme_dir "challenges" ∷ []

  -- cleanupACME. A time below the zero time counts as the zero time, which no file is older than.
  unfoldable pub cleanup_acme : World → World
  unfolding clear_dirs
  cleanup_acme w = record w { fs = clear_dirs (w.now - month) cleaned_dirs w.fs }

  -- EnsureACMEDirs
  unfoldable pub ensure_acme_dirs : Exec String (Unit {0})
  ensure_acme_dirs = do
    on_fs (mkdir_all (acme_dir "accounts")) "mkdir"
    on_fs (mkdir_all (acme_dir "orders")) "mkdir"
    on_fs (mkdir_all (acme_dir "authz")) "mkdir"
    on_fs (mkdir_all (acme_dir "certs")) "mkdir"
