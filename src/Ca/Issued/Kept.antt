-- ===== src/Ca/Issued/Kept.antt =====
-- internal/storage/certificate.go: what stands in the files of an issued certificate.
use ad_pki_ca.Base.{
  ◌≡◌, ◌⊎◌, inl, inr, sym, ap, ◌∙◌, Option, none, some, String, ◌∷◌, arith, refl, false,
}
use std.Path.{subst}
use ad_pki_ca.Env.{Env}
use ad_pki_ca.Files.{FilePath, Fs, text, read_file, write_file, mkdir_all, path_eq}
use ad_pki_ca.Files.Laws.{read_file-write_file, path_eq_refl}
use ad_pki_ca.World.{World, ok, pure, on_fs}
use ad_pki_ca.World.Laws.{>>=-eq-ok, on_write-eq-ok}
use ad_pki_ca.Ca.Issued.{IssuedPaths, issued_dir, write_bytes, write_optional, store_certificate}

-- The file of an optional part holds it, if there is one.
abbrev pub Holds : Fs → Option FilePath → Option String → Type 0
Holds fs none none = Unit
Holds fs (some p) (some s) = read_file p fs ≡ some (text s)
Holds fs _ _ = ⊥

module _ (env : Env) where
  pub record IsStored (paths : IssuedPaths) (cert csr : String) (key chain : Option String)
      (fs : Fs) : Type 0 where
    pub cert_file : read_file paths.crt_path fs ≡ some (text cert)
    pub csr_file : read_file paths.csr_path fs ≡ some (text csr)
    pub key_file : Holds fs paths.key_path key
    pub chain_file : Holds fs paths.chain_path chain

  write_bytes-eq-ok :
      (p : FilePath) (s : String) (w v : World)
      → write_bytes env p s w ≡ (ok tt, v)
      → write_file w.now p (text s) w.fs ≡ some v.fs
  unfolding write_bytes
  write_bytes-eq-ok p s w v h =
      let (fs, written, after) = on_write-eq-ok p (text s) "write" w v h in
      ground (arith, written, after)

  -- A path that is another file's is as it was.
  abbrev pub Elsewhere : FilePath → Fs → Fs → Type 0
  Elsewhere p fs gs = (q : FilePath) → path_eq p q ≡ false → read_file q gs ≡ read_file q fs

  pub written-here :
      (p : FilePath) (s : String) (w v : World)
      → write_bytes env p s w ≡ (ok tt, v)
      → read_file p v.fs ≡ some (text s)
  written-here p s w v h = ground (
    arith,
    read_file-write_file p p w.now (text s) w.fs (write_bytes-eq-ok p s w v h),
    path_eq_refl p,
  )

  pub written-Elsewhere :
      (p : FilePath) (s : String) (w v : World)
      → write_bytes env p s w ≡ (ok tt, v)
      → Elsewhere p w.fs v.fs
  written-Elsewhere p s w v h q other =
      ground
        (arith, read_file-write_file q p w.now (text s) w.fs (write_bytes-eq-ok p s w v h), other)

  optional-eq-ok :
      (p : FilePath) (part : Option String) (r : Option FilePath) (w v : World)
      → write_optional env p part w ≡ (ok r, v)
      → Holds v.fs r part × Elsewhere p w.fs v.fs × ((r ≡ none) ⊎ (r ≡ some p))
  unfolding write_optional
  optional-eq-ok p none none w v h = (tt, λ q other. ground (arith, h), inl refl)
  optional-eq-ok p none (some q) w v h = absurd (ground (arith, h))
  optional-eq-ok p (some s) r w v h =
      let (_, u, a, k) = >>=-eq-ok (write_bytes env p s) (λ _. pure (some p)) w v r h in
      let is : r ≡ some p = ground (arith, k) in
      let same : u ≡ v = ground (arith, k) in
      let here : Holds v.fs (some p) (some s) =
        ap (λ x. read_file p x.fs) (sym same) ∙ written-here p s w u a in
      (
        subst (λ x. Holds v.fs x (some s)) (sym is) here,
        λ q other. ap (λ x. read_file q x.fs) (sym same) ∙ written-Elsewhere p s w u a q other,
        inr is,
      )

  Holds-kept :
      (p : FilePath) (r : Option FilePath) (part : Option String) (fs gs : Fs)
      → ((r ≡ none) ⊎ (r ≡ some p))
      → read_file p gs ≡ read_file p fs
      → Holds fs r part
      → Holds gs r part
  Holds-kept p none none fs gs c same h = tt
  Holds-kept p none (some s) fs gs c same h = h
  Holds-kept p (some q) none fs gs c same h = h
  Holds-kept p (some q) (some s) fs gs (inl n) same h = absurd (ground (arith, n))
  Holds-kept p (some q) (some s) fs gs (inr is) same h = ground (arith, is, same, h)

  apart :
      (base : FilePath)
      → (path_eq ("request.csr" ∷ base) ("certificate.crt" ∷ base) ≡ false)
        × (path_eq ("private.key" ∷ base) ("certificate.crt" ∷ base) ≡ false)
        × (path_eq ("private.key" ∷ base) ("request.csr" ∷ base) ≡ false)
        × (path_eq ("fullchain.pem" ∷ base) ("certificate.crt" ∷ base) ≡ false)
        × (path_eq ("fullchain.pem" ∷ base) ("request.csr" ∷ base) ≡ false)
        × (path_eq ("fullchain.pem" ∷ base) ("private.key" ∷ base) ≡ false)
  unfolding path_eq
  apart base = (refl, refl, refl, refl, refl, refl)

  all_written :
      (base : FilePath) (cert csr : String) (key chain : Option String)
      (key_path chain_path : Option FilePath) (w₁ w₂ w₃ w₄ w₅ : World)
      → write_bytes env ("certificate.crt" ∷ base) cert w₁ ≡ (ok tt, w₂)
      → write_bytes env ("request.csr" ∷ base) csr w₂ ≡ (ok tt, w₃)
      → write_optional env ("private.key" ∷ base) key w₃ ≡ (ok key_path, w₄)
      → write_optional env ("fullchain.pem" ∷ base) chain w₄ ≡ (ok chain_path, w₅)
      → IsStored
          (record {
            crt_path = "certificate.crt" ∷ base;
            csr_path = "request.csr" ∷ base;
            key_path = key_path;
            chain_path = chain_path;
          })
          cert
          csr
          key
          chain
          w₅.fs
  all_written base cert csr key chain key_path chain_path w₁ w₂ w₃ w₄ w₅ a b c d =
      let (csr_crt, key_crt, key_csr, chain_crt, chain_csr, chain_key) = apart base in
      let crt : FilePath = "certificate.crt" ∷ base in
      let req : FilePath = "request.csr" ∷ base in
      let (key_holds, key_else, key_at) =
        optional-eq-ok ("private.key" ∷ base) key key_path w₃ w₄ c in
      let (chain_holds, chain_else, chain_at) =
        optional-eq-ok ("fullchain.pem" ∷ base) chain chain_path w₄ w₅ d in
      record {
        cert_file =
            chain_else crt chain_crt
            ∙ key_else crt key_crt
            ∙ written-Elsewhere req csr w₂ w₃ b crt csr_crt
            ∙ written-here crt cert w₁ w₂ a;
        csr_file = chain_else req chain_csr ∙ key_else req key_csr ∙ written-here req csr w₂ w₃ b;
        key_file =
            Holds-kept ("private.key" ∷ base) key_path key w₄.fs w₅.fs key_at
              (chain_else ("private.key" ∷ base) chain_key) key_holds;
        chain_file = chain_holds;
      }

  abbrev paths_in : FilePath → Option FilePath → Option FilePath → IssuedPaths
  paths_in base key_path chain_path = record {
    crt_path = "certificate.crt" ∷ base;
    csr_path = "request.csr" ∷ base;
    key_path = key_path;
    chain_path = chain_path;
  }

  -- When storing a certificate went through, its file and that of the request hold what was given, and
  -- so do those of the key and the chain if they were given; otherwise these have no path.
  pub store_certificate-IsStored :
      (name serial cert csr : String) (key chain : Option String) (w v : World)
      (paths : IssuedPaths)
      → store_certificate env name serial cert csr key chain w ≡ (ok paths, v)
      → IsStored paths cert csr key chain v.fs
  unfolding store_certificate
  store_certificate-IsStored name serial cert csr key chain w v paths h =
      let base = issued_dir env name serial in
      let (_, w₁, a, h₁) = >>=-eq-ok (on_fs (mkdir_all base) "mkdir") _ w v paths h in
      let (_, w₂, b, h₂) =
        >>=-eq-ok (write_bytes env ("certificate.crt" ∷ base) cert) _ w₁ v paths h₁ in
      let (_, w₃, c, h₃) = >>=-eq-ok (write_bytes env ("request.csr" ∷ base) csr) _ w₂ v paths h₂ in
      let (key_path, w₄, d, h₄) =
        >>=-eq-ok (write_optional env ("private.key" ∷ base) key) _ w₃ v paths h₃ in
      let (chain_path, w₅, e, h₅) =
        >>=-eq-ok (write_optional env ("fullchain.pem" ∷ base) chain)
          (λ p. pure (paths_in base key_path p)) w₄ v paths h₄ in
      let is : paths ≡ paths_in base key_path chain_path = ground (arith, h₅) in
      let same : w₅ ≡ v = ground (arith, h₅) in
      subst (λ p. IsStored p cert csr key chain v.fs) (sym is)
        (subst (λ u. IsStored (paths_in base key_path chain_path) cert csr key chain u.fs) same
          (all_written base cert csr key chain key_path chain_path w₁ w₂ w₃ w₄ w₅ b c d e))
