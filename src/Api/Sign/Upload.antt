-- ===== src/Api/Sign/Upload.antt =====
-- internal/api/sign_handler.go: what an uploaded request leads to.
use ad_pki_ca.Base.{
  ◌≡◌, sym, ap, ◌∙◌, to_nat, none, some, [], String, true, arith, if◌then◌else◌, ◌==◌,
}
use ad_pki_ca.Env.{Env}
use ad_pki_ca.World.{World, Exec, ok, pure, reads, lift, or_else, ◌>>=◌}
use ad_pki_ca.World.Laws.{>>=-eq-ok, or_else-eq-ok}
use ad_pki_ca.Ca.Issued.{IssuedPaths}
use ad_pki_ca.Ca.Request.{parse_csr_pem}
use ad_pki_ca.Api.Http.{Request, Response, http_error, form_value, form_file, read_all, FormFile}
use ad_pki_ca.Api.Http.Refusal.{Refuses, >>=-Refuses, or_else-Refuses, lift-Refuses, merge-200}
use ad_pki_ca.Api.Sign.{
  text_or, sign_response, form_days, require_text, sign_and_store, sign_upload, sign_handler,
}
use ad_pki_ca.Api.Sign.Issued.{IsIssued, sign_and_store-IsIssued, sign_and_store-Refuses}

module _ (env : Env) where
  open env use {Csr, Addr}

  -- What an answer 200 to an upload stands for.
  pub record IsUploaded (r : Request) (w v : World) : Type 0 where
    pub file : FormFile
    pub sent : form_file "csr" r ≡ some file
    pub csr_pem : String
    pub whole : read_all file ≡ some csr_pem
    pub csr : Csr
    pub parsed : (parse_csr_pem env csr_pem w).0 ≡ ok csr
    pub self_signed : env.csr_signed csr ≡ true
    pub paths : IssuedPaths
    pub issued :
        IsIssued env csr
          (form_value "crl_url" r)
          []
          (form_value "ocsp_url" r)
          (text_or "tls" (form_value "type" r))
          (to_nat (form_days env (form_value "validity_days" r)))
          (form_value "intermediate" r)
          csr_pem
          none
          w
          v
          paths

  parse_csr_pem-eq-ok :
      (pem : String) (w v : World) (csr : Csr)
      → parse_csr_pem env pem w ≡ (ok csr, v)
      → (env.csr_signed csr ≡ true) × (v ≡ w)
  unfolding parse_csr_pem
  parse_csr_pem-eq-ok pem w v csr h = (ground arith, ground arith)

  require_text-eq-ok :
      (s message : String) (w v : World) → require_text env s message w ≡ (ok tt, v) → v ≡ w
  unfolding require_text
  require_text-eq-ok s message w v h = ground arith

  require_text-Refuses : (s message : String) → Refuses (require_text env s message)
  unfolding require_text
  require_text-Refuses s message w e h = ground arith

  -- The parts of the handler after its checks.
  abbrev issuing : Request → Csr → String → Exec Response (String × IssuedPaths)
  issuing r csr pem =
      sign_and_store env csr (form_value "intermediate" r) (form_value "crl_url" r) []
        (form_value "ocsp_url" r) (text_or "tls" (form_value "type" r))
        (to_nat (form_days env (form_value "validity_days" r))) (env.csr_common_name csr) pem none

  abbrev answered : Request → Csr → String → IssuedPaths → Exec Response Response
  answered r csr serial paths =
      let kind : String = text_or "tls" (form_value "type" r) in
      reads (λ w. w.now) >>= λ now. pure (
        sign_response kind (env.csr_common_name csr)
          (if kind == "tls" then env.csr_dns_names csr else []) serial now
          (env.add_date now (form_days env (form_value "validity_days" r))) paths)

  sign_upload-Refuses : (r : Request) → Refuses (sign_upload env r)
  unfolding sign_upload
  sign_upload-Refuses r =
      >>=-Refuses (lift (form_file "csr" r) (http_error "missing csr" 400)) _
        (lift-Refuses (form_file "csr" r) (http_error "missing csr" 400) (λ h. ground arith))
        λ file.
          >>=-Refuses (lift (read_all file) (http_error "failed to read csr" 500)) _
            (lift-Refuses (read_all file) (http_error "failed to read csr" 500) (λ h. ground arith))
            λ pem.
              >>=-Refuses (or_else (parse_csr_pem env pem) (λ e. http_error e 400)) _
                (or_else-Refuses (parse_csr_pem env pem) (λ e. http_error e 400)
                  (λ e h. ground arith))
                λ csr.
                  >>=-Refuses
                    (require_text env (form_value "intermediate" r) "missing intermediate") _
                    (require_text-Refuses (form_value "intermediate" r) "missing intermediate")
                    λ _.
                      >>=-Refuses (require_text env (form_value "crl_url" r) "missing crl_url") _
                        (require_text-Refuses (form_value "crl_url" r) "missing crl_url")
                        λ _.
                          >>=-Refuses (issuing r csr pem)
                            (λ (serial, paths). answered r csr serial paths)
                            (sign_and_store-Refuses env csr (form_value "intermediate" r)
                              (form_value "crl_url" r) [] (form_value "ocsp_url" r)
                              (text_or "tls" (form_value "type" r))
                              (to_nat (form_days env (form_value "validity_days" r)))
                              (env.csr_common_name csr) pem none)
                            λ (serial, paths). λ w e h. absurd (ground (arith, h))

  sign_upload-IsUploaded :
      (r : Request) (w v : World) (resp : Response)
      → sign_upload env r w ≡ (ok resp, v)
      → IsUploaded r w v
  unfolding sign_upload
  sign_upload-IsUploaded r w v resp h =
      let (file, w₁, a, h₁) =
        >>=-eq-ok (lift (form_file "csr" r) (http_error "missing csr" 400)) _ w v resp h in
      let same₁ : w₁ ≡ w = ground (arith, a) in
      let (pem, w₂, b, h₂) =
        >>=-eq-ok (lift (read_all file) (http_error "failed to read csr" 500)) _ w₁ v resp h₁ in
      let same₂ : w₂ ≡ w = ground (arith, b, same₁) in
      let (csr, w₃, c, h₃) =
        >>=-eq-ok (or_else (parse_csr_pem env pem) (λ e. http_error e 400)) _ w₂ v resp h₂ in
      let parsed = or_else-eq-ok (parse_csr_pem env pem) (λ e. http_error e 400) w₂ w₃ csr c in
      let (self_signed, kept) = parse_csr_pem-eq-ok pem w₂ w₃ csr parsed in
      let (_, w₄, d, h₄) =
        >>=-eq-ok (require_text env (form_value "intermediate" r) "missing intermediate") _ w₃ v
          resp h₃ in
      let same₄ : w₄ ≡ w =
        require_text-eq-ok (form_value "intermediate" r) "missing intermediate" w₃ w₄ d
        ∙ kept
        ∙ same₂ in
      let (_, w₅, e, h₅) =
        >>=-eq-ok (require_text env (form_value "crl_url" r) "missing crl_url") _ w₄ v resp h₄ in
      let same₅ : w₅ ≡ w =
        require_text-eq-ok (form_value "crl_url" r) "missing crl_url" w₄ w₅ e ∙ same₄ in
      let ((serial, paths), w₆, f, h₆) =
        >>=-eq-ok (issuing r csr pem) (λ (serial, paths). answered r csr serial paths) w₅ v resp
          h₅ in
      let after : w₆ ≡ v = ground (arith, h₆) in
      let start : issuing r csr pem w ≡ (ok (serial, paths), v) =
        ap (issuing r csr pem) (sym same₅) ∙ f ∙ ap (λ u. (ok (serial, paths), u)) after in
      record {
        file = file;
        sent = ground (arith, a);
        csr_pem = pem;
        whole = ground (arith, b);
        csr = csr;
        parsed = ground (arith, parsed, same₂);
        self_signed = self_signed;
        paths = paths;
        issued =
            sign_and_store-IsIssued env csr (form_value "intermediate" r) (form_value "crl_url" r)
              [] (form_value "ocsp_url" r) (text_or "tls" (form_value "type" r))
              (to_nat (form_days env (form_value "validity_days" r))) (env.csr_common_name csr) pem
              none w v serial paths start;
      }

  -- SignHandler answers 200 only to a whole file with a request that bears its own key's signature; the
  -- certificate was then made of that request and stored, with the request, no key, and the chain of
  -- the certificate, the intermediate's and the root's.
  pub sign_handler-IsUploaded :
      (r : Request) (w : World)
      → (sign_handler env r w).0.status ≡ 200
      → IsUploaded r w (sign_handler env r w).1
  unfolding sign_handler
  sign_handler-IsUploaded r w h =
      let (resp, k) = merge-200 (sign_upload env r) w (sign_upload-Refuses r) h in
      sign_upload-IsUploaded r w (sign_upload env r w).1 resp (λ i. (k i, (sign_upload env r w).1))
