-- ===== src/Acme/Sign/Notice.antt =====
-- internal/acme/sign.go: what the backend is told of a certificate. The steps before the notice keep
-- the notices and the time.
use Prim.Native.Nat.{◌^◌}
use ad_pki_ca.Base.{
  ℕ, ◌≡◌, refl, List, [], ◌∷◌, none, some, String, ◌<>◌, Option, Option-cases, inl, inr, arith, ◌⊎◌,
  ◌==◌, if◌then◌else◌, pos,
}
use ad_pki_ca.Env.{Env}
use ad_pki_ca.Json.{Json, Fields, obj, str, stamp, get}
use ad_pki_ca.Ca.Tsa.{path_text}
use ad_pki_ca.Files.{FilePath, text, read_file, mkdir_all}
use ad_pki_ca.World.{World, Outcome, ok, err, on_fs}
use ad_pki_ca.World.Laws.{Outcome-cases}
use ad_pki_ca.World.Keeps.{Keeps, >>=-Keeps, lift-Keeps, on_fs-Keeps, on_write-Keeps}
use ad_pki_ca.Acme.Types.{Order}
use ad_pki_ca.Ca.Loader.{
  read_bytes, load_ca_from_pem, intermediate_cert_path, intermediate_key_path,
}
use ad_pki_ca.Ca.Sign.{sign_csr, random_serial}
use ad_pki_ca.Ca.Issued.{IssuedPaths, store_certificate, issued_dir, write_bytes, write_optional}
use ad_pki_ca.Ca.Issued.Kept.{store_certificate-IsStored}
use ad_pki_ca.Ca.Chain.{build_chain, root_path}
use ad_pki_ca.Acme.Settings.{backend_url}
use ad_pki_ca.Acme.Sign.{first_or, notice, notify_laravel, effective_settings, sign_order_csr}

abbrev told : World → List (String × Json × Option ℕ) × ℕ
told w = (w.notices, w.now)

module _ (env : Env) where
  open env use {Csr}

  read_bytes-told : (p : FilePath) → Keeps told (read_bytes env p)
  unfolding read_bytes
  read_bytes-told p w = lift-Keeps told _ _ w

  load_ca_from_pem-told : (cert key : String) → Keeps told (load_ca_from_pem env cert key)
  unfolding load_ca_from_pem
  load_ca_from_pem-told cert key w = ground arith

  random_serial-told : Keeps told (random_serial env)
  unfolding random_serial
  random_serial-told w = elim (Option-cases (env.random_int w.draws (2 ^ 62))) [
    | inl none_drawn ↦ ground (arith, none_drawn)
    | inr (n, drawn) ↦ ground (arith, drawn)
  ]

  sign_csr-told :
      (csr : Csr) (id crl : String) (ips : List env.Addr) (ocsp kind : String) (days : ℕ)
      → Keeps told (sign_csr env csr id crl ips ocsp kind days)
  unfolding sign_csr
  sign_csr-told csr id crl ips ocsp kind days =
      >>=-Keeps told (read_bytes env (intermediate_cert_path env id)) _ (read_bytes-told _)
        λ cert_pem.
          >>=-Keeps told (read_bytes env (intermediate_key_path env id)) _ (read_bytes-told _)
            λ key_pem.
              >>=-Keeps told (load_ca_from_pem env cert_pem key_pem) _
                (load_ca_from_pem-told cert_pem key_pem)
                λ ca.
                  >>=-Keeps told (random_serial env) _ random_serial-told λ serial w. ground arith

  write_bytes-told : (p : FilePath) (s : String) → Keeps told (write_bytes env p s)
  unfolding write_bytes
  write_bytes-told p s = on_write-Keeps told p (text s) "write" (λ fs u. refl)

  write_optional-told : (p : FilePath) (o : Option String) → Keeps told (write_optional env p o)
  unfolding write_optional
  write_optional-told p none = λ w. refl
  write_optional-told p (some s) =
      >>=-Keeps told (write_bytes env p s) _ (write_bytes-told p s) (λ _ w. refl)

  store_certificate-told :
      (name serial cert csr : String) (key chain : Option String)
      → Keeps told (store_certificate env name serial cert csr key chain)
  unfolding store_certificate
  store_certificate-told name serial cert csr key chain =
      let base : FilePath = issued_dir env name serial in
      >>=-Keeps told (on_fs (mkdir_all base) "mkdir") _
        (on_fs-Keeps told (mkdir_all base) "mkdir" (λ fs u. refl))
        λ _.
          >>=-Keeps told (write_bytes env ("certificate.crt" ∷ base) cert) _ (write_bytes-told _ _)
            λ _.
              >>=-Keeps told (write_bytes env ("request.csr" ∷ base) csr) _ (write_bytes-told _ _)
                λ _.
                  >>=-Keeps told (write_optional env ("private.key" ∷ base) key) _
                    (write_optional-told _ key)
                    λ key_path.
                      >>=-Keeps told (write_optional env ("fullchain.pem" ∷ base) chain) _
                        (write_optional-told _ chain) (λ chain_path w. refl)

  build_chain-world : (cert id : String) → Keeps (λ w. w) (build_chain env cert id)
  unfolding build_chain read_bytes
  build_chain-world cert id =
      >>=-Keeps (λ w. w) (read_bytes env (intermediate_cert_path env id)) _
        (λ w. lift-Keeps (λ u. u) _ _ w)
        λ a.
          >>=-Keeps (λ w. w) (read_bytes env (root_path env)) _ (λ w. lift-Keeps (λ u. u) _ _ w)
            (λ b w. refl)

  abbrev pub notice_url : String
  notice_url =
      (if env.backend_variable == "" then "http://127.0.0.1:8000" else env.backend_variable)
      <> "/api/internal/acme-certificate"

  -- The notice says which certificate it is, where its file is, for whom it was made, and from when
  -- until when it is good.
  pub record IsNotice (serial : String) (path : FilePath) (days : ℕ) (account : String) (now : ℕ)
      (said : Json) : Type 0 where
    pub fields : Fields
    pub object : said ≡ obj fields
    pub serial_number : get "serial_number" fields ≡ some (str serial)
    pub file : get "crt_path" fields ≡ some (str (path_text path))
    pub account_id : get "acme_account_id" fields ≡ some (str account)
    pub valid_from : get "valid_from" fields ≡ some (stamp now)
    pub valid_to : get "valid_to" fields ≡ some (stamp (env.add_date now (pos days)))

  notice-IsNotice :
      (csr : Csr) (serial : String) (path : FilePath) (days : ℕ) (account : String) (now : ℕ)
      → IsNotice serial path days account now (notice env csr serial path days account now)
  unfolding notice get
  notice-IsNotice csr serial path days account now = record {
    fields = _;
    object = refl;
    serial_number = refl;
    file = refl;
    account_id = refl;
    valid_from = refl;
    valid_to = refl;
  }

  abbrev pub signed_for : Csr → World → Outcome String (String × String) × World
  signed_for csr w =
      let s = effective_settings env w in
      sign_csr env csr s.intermediate_id s.crl_url [] s.ocsp_url "tls" s.validity_days w

  -- The certificate's files, under the request's common name or its first DNS name.
  abbrev pub stored_for : Csr → String × String → World → Outcome String IssuedPaths × World
  stored_for csr (pem, serial) w =
      store_certificate env (first_or env (env.csr_common_name csr) (env.csr_dns_names csr)) serial
        pem "" none none w

  -- The backend was sent one notice, of the certificate that was signed, and the file that it names
  -- holds that certificate. Nothing is done about what came of the post.
  pub record IsAnnounced (csr : Csr) (order : Order) (w v : World) : Type 0 where
    pub pem : String
    pub serial : String
    pub paths : IssuedPaths
    pub made : (signed_for csr w).0 ≡ ok (pem, serial)
    pub stored : (stored_for csr (pem, serial) (signed_for csr w).1).0 ≡ ok paths
    pub said : Json
    pub saying :
        IsNotice serial paths.crt_path
          (effective_settings env w).validity_days
          order.account_id
          w.now
          said
    pub posted : v.notices ≡ (notice_url, said, env.post_json w.now notice_url said) ∷ w.notices
    pub kept : read_file paths.crt_path v.fs ≡ some (text pem)

  -- No certificate was signed, or it was not stored; then nothing is posted, and an error returned.
  pub data IsUntold (csr : Csr) (w v : World) (out : Outcome String String) : Type 0 where
    unsigned :
        (e : String)
        → (signed_for csr w).0 ≡ err e
        → out ≡ err ("signing failed: " <> e)
        → v.notices ≡ w.notices
        → IsUntold csr w v out
    unstored :
        (made : String × String) (e : String)
        → (signed_for csr w).0 ≡ ok made
        → (stored_for csr made (signed_for csr w).1).0 ≡ err e
        → out ≡ err ("storage failed: " <> e)
        → v.notices ≡ w.notices
        → IsUntold csr w v out

  -- When a request for an order is signed and the certificate stored, one notice of it is posted to the
  -- backend, with its serial number, the file that holds it, the order's account and the time for which
  -- it is good, whether or not a chain can then be built; when signing or storing fails, none is posted,
  -- and the error says which of the two it was.
  pub sign_order_csr-notices :
      (csr : Csr) (order : Order) (w : World)
      → IsAnnounced csr order w (sign_order_csr env csr order w).1
        ⊎ IsUntold csr w (sign_order_csr env csr order w).1 (sign_order_csr env csr order w).0
  unfolding sign_order_csr notify_laravel backend_url
  sign_order_csr-notices csr order w =
      let s = effective_settings env w in
      let signed = signed_for csr w in
      let same =
        sign_csr-told csr s.intermediate_id s.crl_url [] s.ocsp_url "tls" s.validity_days w in
      elim (Outcome-cases signed.0) [
        | inl (e, a) ↦ inr (unsigned e a (ground (arith, a)) (ground (arith, a, same)))
        | inr ((pem, serial), a) ↦
            let name : String = first_or env (env.csr_common_name csr) (env.csr_dns_names csr) in
            let stored : Outcome String IssuedPaths × World =
              store_certificate env name serial pem "" none none signed.1 in
            let too = store_certificate-told name serial pem "" none none signed.1 in
            elim (Outcome-cases stored.0) [
              | inl (e, b) ↦ inr (
                  unstored (pem, serial) e a b (ground (arith, a, b))
                    (ground (arith, a, b, same, too)))
              | inr (paths, b) ↦
                  let u : World =
                    (notify_laravel env csr serial paths.crt_path s.validity_days order.account_id
                      stored.1).1 in
                  let chained = build_chain-world pem s.intermediate_id u in
                  let there =
                    store_certificate-IsStored env name serial pem "" none none signed.1 stored.1
                      paths (λ i. (b i, stored.1)) in
                  inl (record {
                    pem = pem;
                    serial = serial;
                    paths = paths;
                    made = a;
                    stored = b;
                    said =
                        notice env csr serial paths.crt_path s.validity_days order.account_id w.now;
                    saying =
                        notice-IsNotice csr serial paths.crt_path s.validity_days order.account_id
                          w.now;
                    posted = ground (arith, a, b, same, too, chained);
                    kept = ground (arith, a, b, chained, there.cert_file);
                  })
            ]
      ]
