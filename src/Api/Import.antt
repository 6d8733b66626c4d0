-- ===== src/Api/Import.antt =====
-- internal/api/import_handler.go, internal/api/ca_handler.go and internal/api/root_handler.go: importing
-- and checking the CA's own certificates.
pub mod Checked
pub mod Imported
use ad_pki_ca.Base.{not, Option, none, some, List, [], ◌∷◌, String, ◌==◌, if◌then◌else◌}
use ad_pki_ca.Json.{Json, str, stamp, arr, obj, field, end, encode_items}
use ad_pki_ca.Env.{Env}
use ad_pki_ca.Files.{FilePath}
use ad_pki_ca.World.{World, Exec, ok, err, pure, require, lift, or_else, ◌>>=◌, ◌>>◌}
use ad_pki_ca.Ca.Validate.{
  Failure, error, panic, CertMeta, validate_intermediate, validate_key_matches_cert,
  parse_certificate,
}
use ad_pki_ca.Ca.Stored.{store_intermediate, store_root}
use ad_pki_ca.Api.Http.{
  Request, Response, FormFile, http_error, json_response, plain_response, aborted, form_value,
  form_file, read_all, merge,
}

abbrev pub failed : Failure → Response
failed (error e) = http_error e 400
failed panic = aborted

abbrev bad_request : String → Response
bad_request e = http_error e 400

abbrev server_error : String → Response
server_error e = http_error e 500

-- The keys of a Go map stand in their order. A path is written by its names.
abbrev pub import_document : String → FilePath → FilePath → CertMeta → Json
import_document name crt_path key_path meta = obj (
    field "cn" (str meta.common_name) (
      field "crt_path" (arr (encode_items str crt_path)) (
        field "id" (str name) (
          field "key_path" (arr (encode_items str key_path)) (
            field "serial" (str meta.serial) (
              field "valid_from" (stamp meta.valid_from)
                (field "valid_to" (stamp meta.valid_to) end)))))))

-- The three files of the form: root, intermediate and key.
pub record Upload : Type 0 where
  pub root : String
  pub intermediate : String
  pub key : String

unfoldable pub read_upload : Request → Exec Response Upload
read_upload r = do
  require (not (form_value "name" r == "")) (bad_request "missing name")
  root_file ← lift (form_file "root" r) (bad_request "missing root")
  int_file ← lift (form_file "intermediate" r) (bad_request "missing intermediate")
  key_file ← lift (form_file "key" r) (bad_request "missing key")
  root ← lift (read_all root_file) (server_error "failed to read root")
  intermediate ← lift (read_all int_file) (server_error "failed to read intermediate")
  key ← lift (read_all key_file) (server_error "failed to read key")
  pure (record { root = root; intermediate = intermediate; key = key })

module _ (env : Env) where
  unfoldable pub import_upload : String → Upload → Exec Response Response
  import_upload name u = do
    or_else (validate_intermediate env u.root u.intermediate) bad_request
    or_else (validate_key_matches_cert env u.intermediate u.key) failed
    (crt_path, key_path) ← or_else (store_intermediate env name u.intermediate u.key) server_error
    meta ← or_else (parse_certificate env u.intermediate) server_error
    pure (json_response 200 (import_document name crt_path key_path meta))

  -- ImportIntermediateHandler
  unfoldable pub import_intermediate_handler : Request → World → Response × World
  unfolding read_upload import_upload
  import_intermediate_handler r w =
      let (out, v) = (read_upload r >>= import_upload (form_value "name" r)) w in (merge out, v)

  -- What was read of a file, whether that is all or not; reading a missing file panics.
  abbrev read_part : Option FormFile → Exec Response String
  read_part none w = (err aborted, w)
  read_part (some f) w = (ok f.content, w)

  -- ValidateIntermediateHandler
  unfoldable pub validate_intermediate_handler : Request → World → Response × World
  validate_intermediate_handler r w =
      let (out, v) =
        (do
          root ← read_part (form_file "root" r)
          intermediate ← read_part (form_file "intermediate" r)
          or_else (validate_intermediate env root intermediate) bad_request
          pure (plain_response 200 "text/plain; charset=utf-8" "valid"))
          w in
      (merge out, v)

  -- ImportRootHandler
  unfoldable pub import_root_handler : Request → World → Response × World
  import_root_handler r w =
      let (out, v) =
        (do
          file ← lift (form_file "root" r) (bad_request "missing root")
          or_else (store_root env file.content) server_error
          pure (plain_response 200 "text/plain; charset=utf-8" "root stored"))
          w in
      (merge out, v)
