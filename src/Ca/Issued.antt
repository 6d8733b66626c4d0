-- ===== src/Ca/Issued.antt =====
-- internal/storage/certificate.go: the directory of an issued certificate.
pub mod Inside
pub mod Kept
use Prim.Native.Char.{Char, code}
use ad_pki_ca.Config.{base_path}
use ad_pki_ca.Base.{
  Bool, ◌&&◌, ◌||◌, ◌≡◌, refl, Option, none, some, [], ◌∷◌, String, ◌<>◌, leb, eqb, if◌then◌else◌,
}
use ad_pki_ca.Env.{Env}
use ad_pki_ca.Files.{FilePath, text, join, write_file, mkdir_all}
use ad_pki_ca.World.{Exec, pure, on_fs, on_write, ◌>>=◌, ◌>>◌}

abbrev pub is_safe : Char → Bool
is_safe c =
    let n = code c in
    (leb b'a' n && leb n b'z')
    || (leb b'A' n && leb n b'Z')
    || (leb b'0' n && leb n b'9')
    || eqb n b'.'
    || eqb n b'-'

-- `[^a-zA-Z0-9.-]` becomes "_".
unfoldable pub safe_name : String → String
safe_name String.[] = ""
safe_name (String.◌∷◌ c s) =
    let rest = safe_name s in if is_safe c then String.◌∷◌ c rest else "_" <> rest

pub record IssuedPaths : Type 0 where
  pub crt_path : FilePath
  pub csr_path : FilePath
  pub key_path : Option FilePath
  pub chain_path : Option FilePath

module _ (env : Env) where
  unfoldable pub write_bytes : FilePath → String → Exec String (Unit {0})
  write_bytes path content = on_write path (text content) "write"

  -- A file that is only written if there is something to write.
  unfoldable pub write_optional : FilePath → Option String → Exec String (Option FilePath)
  unfolding write_bytes
  write_optional path none = pure none
  write_optional path (some content) = do write_bytes path content; pure (some path)

  abbrev pub issued_dir : String → String → FilePath
  issued_dir common_name serial =
      join (base_path env) ("issued" ∷ (safe_name common_name <> "-" <> serial) ∷ [])

  -- `csr` is nil in the ACME flow, and its file is then empty.
  unfoldable pub store_certificate :
      String → String → String → String → Option String → Option String → Exec String IssuedPaths
  unfolding write_optional safe_name
  store_certificate common_name serial cert csr key chain = do
    let base : FilePath = issued_dir common_name serial
    on_fs (mkdir_all base) "mkdir"
    write_bytes ("certificate.crt" ∷ base) cert
    write_bytes ("request.csr" ∷ base) csr
    key_path ← write_optional ("private.key" ∷ base) key
    chain_path ← write_optional ("fullchain.pem" ∷ base) chain
    pure (record {
      crt_path = "certificate.crt" ∷ base;
      csr_path = "request.csr" ∷ base;
      key_path = key_path;
      chain_path = chain_path;
    })

safe_name_traversal : safe_name "../a b/*" ≡ ".._a_b__"
unfolding safe_name
safe_name_traversal = refl
