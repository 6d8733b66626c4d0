-- ===== src/Api/Crl/Round.antt =====
-- internal/worker/crl-worker.go: what one round writes, and what it leaves.
use std.Path.{subst}
use ad_pki_ca.Base.{
  ℕ, ◌+◌, ◌≡◌, inl, inr, refl, sym, ap, ◌∙◌, some, List, [], ◌∷◌, ◌++◌, String, arith, Bool-cases,
  Option-cases,
}
use ad_pki_ca.Env.{Env, Revoked}
use ad_pki_ca.Files.{FilePath, text, read_file, write_file, failed_write, path_eq}
use ad_pki_ca.Files.Laws.{read_file-write_file, read_file-failed_write, path_eq_iff}
use ad_pki_ca.World.{World, Outcome, ok, err}
use ad_pki_ca.World.Laws.{>>=-eq-ok, on_write-eq-ok, Outcome-cases}
use ad_pki_ca.Ca.Loader.{
  Ca, read_bytes, load_ca_from_pem, intermediate_cert_path, intermediate_key_path,
}
use ad_pki_ca.Ca.Intermediates.{load_all_intermediates}
use ad_pki_ca.Ca.Revocation.{fetch_revoked_certificates, generate_crl, sign_crl}
use ad_pki_ca.Api.Crl.{crl_path, crl_revoked_url, update_crl, update_crls, crl_round}

module _ (env : Env) where
  -- A list of what the backend names as revoked for an intermediate, signed with the certificate and
  -- the key in the intermediate's files, for a day from the state's time.
  pub record IsCrl (id : String) (w : World) (pem : String) : Type 0 where
    pub ca : Ca env
    pub cert_pem : String
    pub key_pem : String
    pub cert_file : (read_bytes env (intermediate_cert_path env id) w).0 ≡ ok cert_pem
    pub key_file : (read_bytes env (intermediate_key_path env id) w).0 ≡ ok key_pem
    pub loaded : (load_ca_from_pem env cert_pem key_pem w).0 ≡ ok ca
    pub revoked : List Revoked
    pub told : (fetch_revoked_certificates env (crl_revoked_url env id) w).0 ≡ ok revoked
    pub draw : ℕ
    pub der : String
    pub signed : env.create_crl draw ca.cert ca.key revoked w.now (w.now + 86400) ≡ some der
    pub printed : pem ≡ env.encode_pem "X509 CRL" der

  -- Nothing but the number of draws is another.
  pub record SameFiles (w v : World) : Type 0 where
    pub files : v.fs ≡ w.fs
    pub clock : v.now ≡ w.now

  fetch-same : (url : String) (w : World) → (fetch_revoked_certificates env url w).1 ≡ w
  unfolding fetch_revoked_certificates
  fetch-same url w = ground arith

  generate_crl-SameFiles :
      (id : String) (listed : List Revoked) (w : World)
      → SameFiles w (generate_crl env id listed w).1
  unfolding generate_crl sign_crl read_bytes load_ca_from_pem
  generate_crl-SameFiles id listed w = record { files = ground arith; clock = ground arith }

  load_ca_from_pem-same :
      (cert_pem key_pem : String) (w : World) → (load_ca_from_pem env cert_pem key_pem w).1 ≡ w
  unfolding load_ca_from_pem
  load_ca_from_pem-same cert_pem key_pem w = ground arith

  generate_crl-eq-ok :
      (id : String) (listed : List Revoked) (w v : World) (pem : String)
      → (fetch_revoked_certificates env (crl_revoked_url env id) w).0 ≡ ok listed
      → generate_crl env id listed w ≡ (ok pem, v)
      → IsCrl id w pem
  unfolding generate_crl sign_crl read_bytes
  generate_crl-eq-ok id listed w v pem told h =
      let (cert_pem, w₁, c, h₁) =
        >>=-eq-ok (read_bytes env (intermediate_cert_path env id)) _ w v pem h in
      let same₁ : w₁ ≡ w = ground (arith, c) in
      let (key_pem, w₂, k, h₂) =
        >>=-eq-ok (read_bytes env (intermediate_key_path env id)) _ w₁ v pem h₁ in
      let same₂ : w₂ ≡ w = ground (arith, k, same₁) in
      let (ca, w₃, l, h₃) = >>=-eq-ok (load_ca_from_pem env cert_pem key_pem) _ w₂ v pem h₂ in
      let same₃ : w₃ ≡ w = ground (arith, l, same₂, load_ca_from_pem-same cert_pem key_pem w₂) in
      elim (Option-cases (env.create_crl w₃.draws ca.cert ca.key listed w₃.now (w₃.now + 86400))) [
        | inl none_made ↦ absurd (ground (arith, none_made, h₃))
        | inr (der, made) ↦ record {
          ca = ca;
          cert_pem = cert_pem;
          key_pem = key_pem;
          cert_file = ground (arith, c);
          key_file = ground (arith, k, same₁);
          loaded = ground (arith, l, same₂);
          revoked = listed;
          told = told;
          draw = w₃.draws;
          der = der;
          signed = ground (arith, made, same₃);
          printed = ground (arith, made, h₃);
        }
      ]

  -- What a failed update leaves: all files as they were, or the list's own file with what got into it.
  data AfterFailure (id : String) (w v : World) : Type 0 where
    untouched : v.fs ≡ w.fs → AfterFailure id w v
    unwritten : v.fs ≡ failed_write w.now (crl_path env id) w.fs → AfterFailure id w v

  update_crl-refuses :
      (id : String) (w : World) (e : String)
      → (update_crl env id w).0 ≡ err e
      → AfterFailure id w (update_crl env id w).1 × ((update_crl env id w).1.now ≡ w.now)
  unfolding update_crl
  update_crl-refuses id w e h =
      let f : Outcome String (List Revoked) × World =
        fetch_revoked_certificates env (crl_revoked_url env id) w in
      let same₁ : f.1 ≡ w = fetch-same (crl_revoked_url env id) w in
      elim (Outcome-cases f.0) [
        | inl (x, k) ↦ (untouched (ground (arith, k, same₁)), ground (arith, k, same₁))
        | inr (listed, k) ↦
            let g : Outcome String String × World = generate_crl env id listed f.1 in
            let same₂ = generate_crl-SameFiles id listed f.1 in
            elim (Outcome-cases g.0) [
              | inl (x, l) ↦ (
                untouched (ground (arith, k, l, same₁, same₂.files)),
                ground (arith, k, l, same₁, same₂.clock),
              )
              | inr (pem, l) ↦
                  elim (Option-cases (write_file g.1.now (crl_path env id) (text pem) g.1.fs)) [
                    | inl refused ↦ (
                      unwritten (ground (arith, k, l, same₁, same₂.files, same₂.clock, refused)),
                      ground (arith, k, l, same₁, same₂.clock, refused),
                    )
                    | inr (fs, written) ↦ absurd (ground (arith, k, l, written, h))
                  ]
            ]
      ]

  pub update_crl-eq-ok :
      (id : String) (w v : World)
      → update_crl env id w ≡ (ok tt, v)
      → (pem : String) × IsCrl id w pem
        × (write_file w.now (crl_path env id) (text pem) w.fs ≡ some v.fs)
        × (v.now ≡ w.now)
  unfolding update_crl
  update_crl-eq-ok id w v h =
      let (listed, w₁, f, h₁) =
        >>=-eq-ok (fetch_revoked_certificates env (crl_revoked_url env id)) _ w v tt h in
      let same₁ : w₁ ≡ w = ground (arith, f, fetch-same (crl_revoked_url env id) w) in
      let (pem, w₂, g, h₂) = >>=-eq-ok (generate_crl env id listed) _ w₁ v tt h₁ in
      let same₂ = generate_crl-SameFiles id listed w₁ in
      let (fs, written, after) = on_write-eq-ok (crl_path env id) (text pem) "write" w₂ v h₂ in
      (
        pem,
        generate_crl-eq-ok id listed w w₂ pem (ground (arith, f)) (ground (arith, g, same₁)),
        ground (arith, written, after, same₁, same₂.files, same₂.clock, g),
        ground (arith, after, same₁, same₂.clock, g),
      )

  -- The state in which the round comes to one of the intermediates that were loaded at its start.
  pub record IsReached (id : String) (start u : World) : Type 0 where
    pub cas : List (Ca env)
    pub loaded : (load_all_intermediates env start).0 ≡ ok cas
    pub before : List (Ca env)
    pub ca : Ca env
    pub after : List (Ca env)
    pub split : cas ≡ before ++ ca ∷ after
    pub named : id ≡ ca.id
    pub state : u ≡ update_crls env before start

  -- What a file holds after a round that began in the state `start`: what it held; or a new list of an
  -- intermediate, at its path; or there what a failed write left.
  pub data AfterRound (p : FilePath) (start w v : World) : Type 0 where
    as_before : read_file p v.fs ≡ read_file p w.fs → AfterRound p start w v
    renewed :
        (id : String) (u : World) (pem : String)
        → IsReached id start u
        → u.now ≡ start.now
        → p ≡ crl_path env id
        → IsCrl id u pem
        → read_file p v.fs ≡ some (text pem)
        → AfterRound p start w v
    broken :
        (id : String) (u : World) (left : String)
        → IsReached id start u
        → p ≡ crl_path env id
        → u.fs.cuts p ≡ some left
        → read_file p v.fs ≡ some (text left)
        → AfterRound p start w v

  update_crl-clock : (id : String) (w : World) → (update_crl env id w).1.now ≡ w.now
  update_crl-clock id w =
      let out : Outcome String (Unit {0}) × World = update_crl env id w in
      elim (Outcome-cases out.0) [
        | inl (e, k) ↦ (update_crl-refuses id w e k).1
        | inr (tt, k) ↦ (update_crl-eq-ok id w out.1 (λ i. (k i, out.1))).3
      ]

  update_crl-AfterRound :
      (p : FilePath) (id : String) (start w : World)
      → IsReached id start w
      → w.now ≡ start.now
      → AfterRound p start w (update_crl env id w).1
  update_crl-AfterRound p id start w reached clock =
      let out : Outcome String (Unit {0}) × World = update_crl env id w in
      elim (Outcome-cases out.0) [
        | inl (e, k) ↦ elim (update_crl-refuses id w e k).0 [
          | untouched same ↦ as_before (ap (read_file p) same)
          | unwritten same ↦ elim (read_file-failed_write p (crl_path env id) w.now w.fs) [
            | inl kept ↦ as_before (ap (read_file p) same ∙ kept)
            | inr (left, here, cut, seen) ↦
                broken id w left reached here cut (ap (read_file p) same ∙ seen)
          ]
        ]
        | inr (tt, k) ↦
            let (pem, crl, written, _) = update_crl-eq-ok id w out.1 (λ i. (k i, out.1)) in
            let seen = read_file-write_file p (crl_path env id) w.now (text pem) w.fs written in
            elim (Bool-cases (path_eq (crl_path env id) p)) [
              | inl here ↦
                  renewed id w pem reached clock (sym ((path_eq_iff (crl_path env id) p).0 here))
                    crl (ground (arith, seen, here))
              | inr there ↦ as_before (ground (arith, seen, there))
            ]
      ]

  AfterRound-then :
      (p : FilePath) (start w u v : World)
      → AfterRound p start w u
      → AfterRound p start u v
      → AfterRound p start w v
  AfterRound-then p start w u v before (renewed id x pem m t at crl r) =
      renewed id x pem m t at crl r
  AfterRound-then p start w u v before (broken id x left m at cut r) = broken id x left m at cut r
  AfterRound-then p start w u v (as_before s) (as_before t) = as_before (t ∙ s)
  AfterRound-then p start w u v (renewed id x pem m t at crl r) (as_before s) =
      renewed id x pem m t at crl (s ∙ r)
  AfterRound-then p start w u v (broken id x left m at cut r) (as_before s) =
      broken id x left m at cut (s ∙ r)

  append_assoc :
      (before : List (Ca env)) (ca : Ca env) (after : List (Ca env))
      → before ++ ca ∷ after ≡ (before ++ ca ∷ []) ++ after
  append_assoc [] ca after = refl
  append_assoc (d ∷ ds) ca after = ap (λ l. d ∷ l) (append_assoc ds ca after)

  update_crls-step :
      (before : List (Ca env)) (ca : Ca env) (w : World)
      → update_crls env (before ++ ca ∷ []) w ≡ (update_crl env ca.id (update_crls env before w)).1
  unfolding update_crls
  update_crls-step [] ca w = refl
  update_crls-step (d ∷ ds) ca w = update_crls-step ds ca (update_crl env d.id w).1

  update_crls-AfterRound :
      (p : FilePath) (all before cas : List (Ca env)) (start w : World)
      → (load_all_intermediates env start).0 ≡ ok all
      → all ≡ before ++ cas
      → w ≡ update_crls env before start
      → w.now ≡ start.now
      → AfterRound p start w (update_crls env cas w)
  unfolding update_crls
  update_crls-AfterRound p all before [] start w loaded split state clock = as_before refl
  update_crls-AfterRound p all before (ca ∷ cas) start w loaded split state clock =
      let u : World = (update_crl env ca.id w).1 in
      AfterRound-then p start w u (update_crls env cas u)
        (update_crl-AfterRound p ca.id start w
          (record {
            cas = all;
            loaded = loaded;
            before = before;
            ca = ca;
            after = cas;
            split = split;
            named = refl;
            state = state;
          })
          clock)
        (update_crls-AfterRound p all (before ++ ca ∷ []) cas start u loaded
          (split ∙ append_assoc before ca cas)
          (ap (λ x. (update_crl env ca.id x).1) state ∙ sym (update_crls-step before ca start))
          (update_crl-clock ca.id w ∙ clock))

  -- After a round of the worker each file holds what it held, or it is the list of an intermediate that
  -- was loaded at the round's start and holds a new one: of what the backend names as revoked, signed
  -- with the certificate and the key in the intermediate's files as the round finds them, and good for a
  -- day from then; or it is such a list, and a write of it that broke off left a part there.
  pub crl_round-AfterRound : (p : FilePath) (w : World) → AfterRound p w w (crl_round env w)
  unfolding crl_round
  crl_round-AfterRound p w = elim (Outcome-cases (load_all_intermediates env w).0) [
    | inl (e, k) ↦
        subst (λ o. AfterRound p w w (elim o [ err _ ↦ w | ok cas ↦ update_crls env cas w ]))
          (sym k) (as_before refl)
    | inr (cas, k) ↦
        subst (λ o. AfterRound p w w (elim o [ err _ ↦ w | ok cas ↦ update_crls env cas w ]))
          (sym k) (update_crls-AfterRound p cas [] cas w w k refl (unfold update_crls in refl) refl)
  ]
