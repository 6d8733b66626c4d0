-- ===== src/Api/Import/Imported.antt =====
-- internal/api/import_handler.go: what stands in the files after an import.
use ad_pki_ca.Base.{◌≡◌, ◌≢◌, sym, ap, ◌∙◌, refl, some, String, [], ◌∷◌, false, arith, split_slash}
use ad_pki_ca.Env.{Env}
use ad_pki_ca.Files.{FilePath, text, mkdir_all, read_file, path_eq, join, enter_all, enter}
use ad_pki_ca.World.{World, Exec, ok, pure, on_fs, or_else, ◌>>=◌}
use ad_pki_ca.World.Laws.{>>=-eq-ok, or_else-eq-ok}
use ad_pki_ca.Ca.Loader.{
  read_bytes, intermediate_cert_path, intermediate_key_path, parse_private_key, load_ca_from_pem,
}
use ad_pki_ca.Ca.Intermediates.{load_intermediate}
use ad_pki_ca.Ca.Issued.{write_bytes}
use ad_pki_ca.Ca.Issued.Kept.{written-here, written-Elsewhere}
use ad_pki_ca.Ca.Validate.{
  Failure, error, panic, validate_intermediate, validate_key_matches_cert, parse_certificate,
}
use ad_pki_ca.Ca.Stored.{stored_cert_path, stored_key_path, intermediate_dir, store_intermediate}
use ad_pki_ca.Api.Http.{Request, Response, form_value, http_error, json_response}
use ad_pki_ca.Api.Http.Refusal.{Refuses, >>=-Refuses, or_else-Refuses, merge-200}
use ad_pki_ca.Api.Import.{
  Upload, read_upload, import_upload, import_intermediate_handler, import_document, failed,
}
use ad_pki_ca.Api.Import.Checked.{IsChecked, checks-IsChecked}

module _ (env : Env) where
  open env use {Cert, Key}

  same_paths :
      (name : String)
      → (stored_cert_path env name ≡ intermediate_cert_path env name)
        × (stored_key_path env name ≡ intermediate_key_path env name)
        × (path_eq (stored_key_path env name) (stored_cert_path env name) ≡ false)
  unfolding join enter_all enter split_slash path_eq
  same_paths name = (refl, refl, refl)

  two_written :
      (p q : FilePath) (s t : String) (w₁ w₂ w₃ : World)
      → path_eq q p ≡ false
      → write_bytes env p s w₁ ≡ (ok tt, w₂)
      → write_bytes env q t w₂ ≡ (ok tt, w₃)
      → (read_file p w₃.fs ≡ some (text s)) × (read_file q w₃.fs ≡ some (text t))
  two_written p q s t w₁ w₂ w₃ apart a b = (
    written-Elsewhere env q t w₂ w₃ b p apart ∙ written-here env p s w₁ w₂ a,
    written-here env q t w₂ w₃ b,
  )

  store_intermediate-files :
      (name cert_pem key_pem : String) (w v : World) (paths : FilePath × FilePath)
      → store_intermediate env name cert_pem key_pem w ≡ (ok paths, v)
      → (read_file (intermediate_cert_path env name) v.fs ≡ some (text cert_pem))
        × (read_file (intermediate_key_path env name) v.fs ≡ some (text key_pem))
  unfolding store_intermediate
  store_intermediate-files name cert_pem key_pem w v paths h =
      let (same_cert, same_key, apart) = same_paths name in
      let (_, w₁, a, h₁) =
        >>=-eq-ok (on_fs (mkdir_all (intermediate_dir env name)) "mkdir") _ w v paths h in
      let (_, w₂, b, h₂) =
        >>=-eq-ok (on_fs (mkdir_all (join (intermediate_dir env name) ("private" ∷ []))) "mkdir") _
          w₁ v paths h₁ in
      let (_, w₃, c, h₃) =
        >>=-eq-ok (write_bytes env (stored_cert_path env name) cert_pem) _ w₂ v paths h₂ in
      let (_, w₄, d, h₄) =
        >>=-eq-ok (write_bytes env (stored_key_path env name) key_pem)
          (λ _. pure (stored_cert_path env name, stored_key_path env name)) w₃ v paths h₃ in
      let after : w₄ ≡ v = ground (arith, h₄) in
      let (cert_there, key_there) =
        two_written (stored_cert_path env name) (stored_key_path env name) cert_pem key_pem w₂ w₃ w₄
          apart c d in
      (
        ap (λ p. read_file p v.fs) (sym same_cert)
            ∙ ap (λ x. read_file (stored_cert_path env name) x.fs) (sym after)
            ∙ cert_there,
        ap (λ p. read_file p v.fs) (sym same_key)
            ∙ ap (λ x. read_file (stored_key_path env name) x.fs) (sym after)
            ∙ key_there,
      )

  -- The imported intermediate, as it is loaded afterwards.
  checked-loads :
      (name : String) (u : Upload) (cert : Cert) (key : Key) (v : World)
      → IsChecked env u cert key
      → read_file (intermediate_cert_path env name) v.fs ≡ some (text u.intermediate)
      → read_file (intermediate_key_path env name) v.fs ≡ some (text u.key)
      → (load_intermediate env name v).0 ≡ ok (record { id = name; cert = cert; key = key })
  unfolding load_intermediate load_ca_from_pem read_bytes parse_private_key
  checked-loads name u cert key v checked c k =
      ground (arith, c, k, checked.cert_text, checked.cert_read, checked.key_text, checked.key_read)

  parse_certificate-same : (pem : String) (w : World) → (parse_certificate env pem w).1 ≡ w
  unfolding parse_certificate
  parse_certificate-same pem w = ground arith

  failed_status : (f : Failure) → (failed f).status ≢ 200
  failed_status (error e) h = ground arith
  failed_status panic h = ground arith

  -- What an answer 200 to an import stands for.
  pub record IsImported (r : Request) (w v : World) : Type 0 where
    pub upload : Upload
    pub read : (read_upload r w).0 ≡ ok upload
    pub cert : Cert
    pub key : Key
    pub checked : IsChecked env upload cert key
    pub loads :
        (load_intermediate env (form_value "name" r) v).0
        ≡ ok (record { id = form_value "name" r; cert = cert; key = key })

  read_upload-Refuses : (r : Request) → Refuses (read_upload r)
  unfolding read_upload
  read_upload-Refuses r w e h = ground arith

  read_upload-same : (r : Request) (w : World) → (read_upload r w).1 ≡ w
  unfolding read_upload
  read_upload-same r w = ground arith

  import_upload-Refuses : (name : String) (u : Upload) → Refuses (import_upload env name u)
  unfolding import_upload
  import_upload-Refuses name u =
      >>=-Refuses
        (or_else (validate_intermediate env u.root u.intermediate) (λ e. http_error e 400)) _
        (or_else-Refuses (validate_intermediate env u.root u.intermediate) (λ e. http_error e 400)
          (λ e h. ground arith))
        λ _.
          >>=-Refuses (or_else (validate_key_matches_cert env u.intermediate u.key) failed) _
            (or_else-Refuses (validate_key_matches_cert env u.intermediate u.key) failed
              failed_status)
            λ _.
              >>=-Refuses
                (or_else (store_intermediate env name u.intermediate u.key) (λ e. http_error e 500))
                _
                (or_else-Refuses (store_intermediate env name u.intermediate u.key)
                  (λ e. http_error e 500) (λ e h. ground arith))
                λ (crt_path, key_path).
                  >>=-Refuses
                    (or_else (parse_certificate env u.intermediate) (λ e. http_error e 500))
                    (λ meta. pure (json_response 200 (import_document name crt_path key_path meta)))
                    (or_else-Refuses (parse_certificate env u.intermediate) (λ e. http_error e 500)
                      (λ e h. ground arith))
                    λ meta. λ w e h. absurd (ground (arith, h))

  import_upload-IsImported :
      (name : String) (u : Upload) (w v : World) (resp : Response)
      → import_upload env name u w ≡ (ok resp, v)
      → (cert : Cert) × (key : Key) × IsChecked env u cert key
        × ((load_intermediate env name v).0 ≡ ok (record { id = name; cert = cert; key = key }))
  unfolding import_upload
  import_upload-IsImported name u w v resp h =
      let (_, w₁, a, h₁) =
        >>=-eq-ok
          (or_else (validate_intermediate env u.root u.intermediate) (λ e. http_error e 400)) _ w v
          resp h in
      let (_, w₂, b, h₂) =
        >>=-eq-ok (or_else (validate_key_matches_cert env u.intermediate u.key) failed) _ w₁ v resp
          h₁ in
      let (paths, w₃, c, h₃) =
        >>=-eq-ok
          (or_else (store_intermediate env name u.intermediate u.key) (λ e. http_error e 500)) _ w₂
          v resp h₂ in
      let (meta, w₄, d, h₄) =
        >>=-eq-ok (or_else (parse_certificate env u.intermediate) (λ e. http_error e 500))
          (λ meta. pure (json_response 200 (import_document name paths.0 paths.1 meta))) w₃ v resp
          h₃ in
      let after : w₃ ≡ v = ground (arith, d, h₄, parse_certificate-same u.intermediate w₃) in
      let (cert, key, checked, _) =
        checks-IsChecked env u w w₁ w₂
          (or_else-eq-ok (validate_intermediate env u.root u.intermediate) (λ e. http_error e 400) w
            w₁ tt a)
          (or_else-eq-ok (validate_key_matches_cert env u.intermediate u.key) failed w₁ w₂ tt b) in
      let (cert_there, key_there) = store_intermediate-files name u.intermediate u.key w₂ w₃ paths (
        or_else-eq-ok (store_intermediate env name u.intermediate u.key) (λ e. http_error e 500) w₂
          w₃ paths c) in
      (
        cert,
        key,
        checked,
        ap (λ x. (load_intermediate env name x).0) (sym after)
            ∙ checked-loads name u cert key w₃ checked cert_there key_there,
      )

  -- An import answers 200 only to a certificate of a CA that the root in the form issued and signed, with
  -- its RSA key; under the form's name it can then be loaded, with that key.
  pub import_intermediate_handler-IsImported :
      (r : Request) (w : World)
      → (import_intermediate_handler env r w).0.status ≡ 200
      → IsImported r w (import_intermediate_handler env r w).1
  unfolding import_intermediate_handler
  import_intermediate_handler-IsImported r w h =
      let name : String = form_value "name" r in
      let core : Exec Response Response = read_upload r >>= import_upload env name in
      let (resp, k) =
        merge-200 core w
          (>>=-Refuses (read_upload r) (import_upload env name) (read_upload-Refuses r)
            (import_upload-Refuses name))
          h in
      let (u, w₁, a, b) =
        >>=-eq-ok (read_upload r) (import_upload env name) w (core w).1 resp
          (λ j. (k j, (core w).1)) in
      let (cert, key, checked, loads) = import_upload-IsImported name u w₁ (core w).1 resp b in
      record {
        upload = u;
        read = ground (arith, a);
        cert = cert;
        key = key;
        checked = checked;
        loads = loads;
      }
