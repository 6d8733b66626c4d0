-- ===== src/Acme/Storage.antt =====
-- internal/acme/storage.go: the JSON files under acme/. The texts of the errors that the system
-- and the libraries return are not modelled: an error has the text that this code gives it.
pub mod Laws
pub mod Refinement
use ad_pki_ca.Config.{base_path}
use ad_pki_ca.Base
use ad_pki_ca.Base.{Option, none, some, List, [], ◌∷◌, String, ◌<>◌, if◌then◌else◌}
use ad_pki_ca.Json.{Json}
use ad_pki_ca.Json
use ad_pki_ca.Env.{Env}
use ad_pki_ca.Files.{
  FilePath, Content, json, text, Entry, join, read_file, write_file, mkdir_all, read_dir,
}
use ad_pki_ca.World.{World, Exec, ok, err, lift, on_fs, on_write, ◌>>◌}
use ad_pki_ca.Acme.Types.{
  Account, Order, Authorization, encode_account, decode_account, encode_order, decode_order,
  encode_authz, decode_authz,
}

module _ (env : Env) where
  unfoldable pub acme_path : List String → FilePath
  acme_path sub = join (base_path env) ("acme" ∷ sub)

  unfoldable pub ensure_dir : FilePath → Exec String (Unit {0})
  ensure_dir path = on_fs (mkdir_all path) "mkdir"

  unfoldable pub write_content : FilePath → Content → Exec String (Unit {0})
  write_content path c = on_write path c "write"

  unfoldable pub write_json : FilePath → Json → Exec String (Unit {0})
  unfolding write_content
  write_json path v = write_content path (json v)

  abbrev json_of : Option Content → Option Json
  json_of none = none
  json_of (some (json j)) = some j
  json_of (some (text s)) = env.parse_text s

  -- The document in a file, before it is put into a struct.
  unfoldable pub read_json : FilePath → World → Option Json
  read_json path w = json_of (read_file path w.fs)

  unfoldable pub write_string_file : FilePath → String → Exec String (Unit {0})
  unfolding write_content
  write_string_file path content = write_content path (text content)

  abbrev string_of : Option Content → Option String
  string_of none = none
  string_of (some (json j)) = some (env.json_text j)
  string_of (some (text s)) = some s

  unfoldable pub read_string_file : FilePath → World → Option String
  read_string_file path w = string_of (read_file path w.fs)

  unfoldable pub account_path : String → FilePath
  unfolding acme_path
  account_path id = acme_path ("accounts" ∷ (id <> ".json") ∷ [])

  unfoldable pub order_path : String → FilePath
  unfolding acme_path
  order_path id = acme_path ("orders" ∷ (id <> ".json") ∷ [])

  unfoldable pub authz_path : String → FilePath
  unfolding acme_path
  authz_path id = acme_path ("authz" ∷ (id <> ".json") ∷ [])

  unfoldable pub save_account : Account → Exec String (Unit {0})
  save_account acc = do
    ensure_dir (acme_path ("accounts" ∷ []))
    write_json (account_path acc.id) (encode_account acc)

  unfoldable pub load_account : String → Exec String Account
  load_account id w =
      lift (Json.◌>>=◌ (read_json (account_path id) w) decode_account) ("account not found: " <> id)
        w

  unfoldable pub save_order : Order → Exec String (Unit {0})
  save_order order = do
    ensure_dir (acme_path ("orders" ∷ []))
    write_json (order_path order.id) (encode_order order)

  unfoldable pub load_order : String → Exec String Order
  load_order id w =
      lift (Json.◌>>=◌ (read_json (order_path id) w) decode_order) ("order not found: " <> id) w

  unfoldable pub save_authz : Authorization → Exec String (Unit {0})
  save_authz authz = do
    ensure_dir (acme_path ("authz" ∷ []))
    write_json (authz_path authz.id) (encode_authz authz)

  unfoldable pub load_authz : String → Exec String Authorization
  load_authz id w =
      lift (Json.◌>>=◌ (read_json (authz_path id) w) decode_authz)
        ("authorization not found: " <> id) w

  -- The loop of `ListAccounts`: an entry that is no account file, or cannot be read, is skipped.
  unfoldable pub load_entries : World → List Entry → List Account
  unfolding load_account
  load_entries w [] = []
  load_entries w (e ∷ es) =
      let rest = load_entries w es in
      elim (if e.is_dir then none else Base.strip_suffix ".json" e.name) [
        | none ↦ rest
        | some id ↦ elim (load_account id w).0 [ err _ ↦ rest | ok acc ↦ acc ∷ rest ]
      ]

  unfoldable pub list_accounts : Exec String (List Account)
  unfolding load_entries acme_path
  list_accounts w = elim (read_dir (acme_path ("accounts" ∷ [])) w.fs) [
    | none ↦ (err "readdir", w)
    | some entries ↦ (ok (load_entries w entries), w)
  ]
