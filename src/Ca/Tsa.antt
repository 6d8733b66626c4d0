-- ===== src/Ca/Tsa.antt =====
-- internal/ca/tsa.go and internal/storage/storage_tsa.go: the certificate of the timestamp authority.
-- openssl makes it, over the files and those of a temporary directory, which is then removed.
use ad_pki_ca.Config.{base_path}
use ad_pki_ca.Base.{
  suc, Bool, true, false, ◌||◌, none, some, List, [], ◌∷◌, String, ◌<>◌, lookup, insert,
  if◌then◌else◌,
}
use ad_pki_ca.Env.{Env}
use ad_pki_ca.Files.{FilePath, join, mkdir_all, read_file, has_dir}
use ad_pki_ca.World.{World, Exec, ok, err, pure, lift, on_fs, ◌>>=◌, ◌>>◌}
use ad_pki_ca.Ca.Loader.{
  Ca, read_bytes, load_ca_from_pem, intermediate_cert_path, intermediate_key_path,
}
use ad_pki_ca.Ca.Issued.{write_bytes}

-- A clean absolute path as a text.
unfoldable pub path_text : FilePath → String
path_text [] = ""
path_text (s ∷ p) = path_text p <> "/" <> s

pub record TsaCertificate : Type 0 where
  pub cert_pem : String
  pub key_pem : String

abbrev pub ext_content : String
ext_content =
    "[ tsa_ext ]\nkeyUsage = critical, nonRepudiation, digitalSignature\nextendedKeyUsage = critical, timeStamping\nbasicConstraints = critical, CA:FALSE\n"

abbrev pub genrsa_args : String → List String
genrsa_args dir = "genrsa" ∷ "-out" ∷ (dir <> "/tsa.key") ∷ "2048" ∷ []

abbrev pub req_args : String → List String
req_args dir =
    "req"
    ∷ "-new"
    ∷ "-key"
    ∷ (dir <> "/tsa.key")
    ∷ "-out"
    ∷ (dir <> "/tsa.csr")
    ∷ "-subj"
    ∷ "/CN=AD-PKI Timestamp Authority"
    ∷ []

abbrev pub x509_args : String → String → String → List String
x509_args dir int_cert int_key =
    "x509"
    ∷ "-req"
    ∷ "-in"
    ∷ (dir <> "/tsa.csr")
    ∷ "-CA"
    ∷ int_cert
    ∷ "-CAkey"
    ∷ int_key
    ∷ "-CAcreateserial"
    ∷ "-out"
    ∷ (dir <> "/tsa.crt")
    ∷ "-days"
    ∷ "3650"
    ∷ "-sha256"
    ∷ "-extfile"
    ∷ (dir <> "/tsa.ext")
    ∷ "-extensions"
    ∷ "tsa_ext"
    ∷ []

-- The files of the temporary directory, by their names.
abbrev pub Temp : Type 0
Temp = List (String × String)

module _ (env : Env) where
  -- `os.MkdirTemp`
  abbrev make_temp : Exec String String
  make_temp w = elim (env.temp_dir w.draws) [
    | none ↦ (err "failed to create temp dir", record w { draws = suc w.draws })
    | some dir ↦ (ok dir, record w { draws = suc w.draws })
  ]

  -- A run of openssl, which may have changed files when it fails.
  unfoldable pub run_openssl : String → List String → Temp → Exec String Temp
  run_openssl message args temp w =
      let (done, (fs, temp')) = env.openssl w.draws args (w.fs, temp) in
      let v : World = record w { fs = fs; draws = suc w.draws } in
      if done then (ok temp', v) else (err message, v)

  -- GenerateTSACertificate
  unfoldable pub generate_tsa_certificate : String → Exec String TsaCertificate
  unfolding run_openssl path_text
  generate_tsa_certificate intermediate_id = do
    dir ← make_temp
    with_key ← run_openssl "genrsa failed" (genrsa_args dir) []
    with_csr ← run_openssl "req failed" (req_args dir) with_key
    done ←
        run_openssl "x509 sign failed"
          (x509_args dir (path_text (intermediate_cert_path env intermediate_id))
            (path_text (intermediate_key_path env intermediate_id)))
          (insert "tsa.ext" ext_content with_csr)
    cert_pem ← lift (lookup "tsa.crt" done) "failed to read cert"
    key_pem ← lift (lookup "tsa.key" done) "failed to read key"
    pure (record { cert_pem = cert_pem; key_pem = key_pem })

  abbrev pub tsa_dir : FilePath
  tsa_dir = join (base_path env) ("tsa" ∷ [])

  abbrev pub tsa_cert_path : FilePath
  tsa_cert_path = join (base_path env) ("tsa" ∷ "tsa.crt" ∷ [])

  abbrev pub tsa_key_path : FilePath
  tsa_key_path = join (base_path env) ("tsa" ∷ "private" ∷ "tsa.key" ∷ [])

  -- LoadTSACertificate
  unfoldable pub load_tsa_certificate : Exec String (Ca env)
  load_tsa_certificate = do
    cert_pem ← read_bytes env tsa_cert_path
    key_pem ← read_bytes env tsa_key_path
    load_ca_from_pem env cert_pem key_pem

  -- TSAExists, by `os.Stat`: a file or a directory.
  unfoldable pub tsa_exists : World → Bool
  tsa_exists w =
      (elim (read_file tsa_cert_path w.fs) [ none ↦ false | some _ ↦ true ])
      || has_dir tsa_cert_path w.fs.dirs

  -- StoreTSACertificate
  unfoldable pub store_tsa_certificate : String → String → Exec String (Unit {0})
  store_tsa_certificate cert_pem key_pem = do
    on_fs (mkdir_all tsa_dir) "mkdir"
    on_fs (mkdir_all (join (base_path env) ("tsa" ∷ "private" ∷ []))) "mkdir"
    write_bytes env (join tsa_dir ("tsa.crt" ∷ [])) cert_pem
    write_bytes env (join (base_path env) ("tsa" ∷ "private" ∷ "tsa.key" ∷ [])) key_pem
