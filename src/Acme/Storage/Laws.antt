-- ===== src/Acme/Storage/Laws.antt =====
-- internal/acme/storage.go: saving and loading. What is saved is loaded again, and the other files stay.
use ad_pki_ca.Base.{◌≡◌, some, arith, if◌then◌else◌, [], ◌∷◌}
use ad_pki_ca.Env.{Env}
use ad_pki_ca.Files.{FilePath, Content, path_eq, read_file, mkdir_all, json}
use ad_pki_ca.Files.Laws.{read_file-write_file, read_file-mkdir_all, path_eq_refl}
use ad_pki_ca.World.{World, ok, ◌>>◌}
use ad_pki_ca.World.Laws.{>>=-eq-ok, on_fs-eq-ok, on_write-eq-ok}
use ad_pki_ca.Acme.Types.{Account, Order, Authorization, encode_account, encode_order, encode_authz}
use ad_pki_ca.Acme.Types.RoundTrip.{
  decode_account-encode_account, decode_order-encode_order, decode_authz-encode_authz,
}
use ad_pki_ca.Acme.Storage.{
  acme_path, ensure_dir, write_content, write_json, read_json, account_path, order_path, authz_path,
  save_account, load_account, save_order, load_order, save_authz, load_authz,
}

-- All but the files.
pub record SameMemory (w v : World) : Type 0 where
  pub nonces : v.nonces ≡ w.nonces
  pub jobs : v.jobs ≡ w.jobs
  pub now : v.now ≡ w.now
  pub draws : v.draws ≡ w.draws
  pub ocsp_cache : v.ocsp_cache ≡ w.ocsp_cache
  pub notices : v.notices ≡ w.notices
  pub ntp_runs : v.ntp_runs ≡ w.ntp_runs

-- One file was written, and nothing else changed.
pub record Wrote (path : FilePath) (c : Content) (w v : World) : Type 0 where
  pub memory : SameMemory w v
  pub files :
      (p : FilePath) → read_file p v.fs ≡ (if path_eq path p then some c else read_file p w.fs)

module _ (env : Env) where
  pub write_content-Wrote :
      (path : FilePath) (c : Content) (w v : World)
      → write_content env path c w ≡ (ok tt, v)
      → Wrote path c w v
  unfolding write_content
  write_content-Wrote path c w v h =
      let (fs, there, same) = on_write-eq-ok path c "write" w v h in
      record {
        memory = ground arith;
        files = λ p. ground (arith, read_file-write_file p path w.now c w.fs there);
      }

  ensure_dir_lem :
      (path : FilePath) (w v : World)
      → ensure_dir env path w ≡ (ok tt, v)
      → SameMemory w v × ((p : FilePath) → read_file p v.fs ≡ read_file p w.fs)
  unfolding ensure_dir
  ensure_dir_lem path w v h =
      let (fs, there, same) = on_fs-eq-ok (mkdir_all path) "mkdir" w v h in
      (ground arith, λ p. ground (arith, read_file-mkdir_all p path w.fs there))

  -- Make the directory, then write the file.
  saved :
      (dir path : FilePath) (c : Content) (w v : World)
      → (ensure_dir env dir >> write_content env path c) w ≡ (ok tt, v)
      → Wrote path c w v
  saved dir path c w v h =
      let (_, u, made, wrote) =
        >>=-eq-ok (ensure_dir env dir) (λ _. write_content env path c) w v tt h in
      let (memory, files) = ensure_dir_lem dir w u made in
      let there = write_content-Wrote path c u v wrote in
      record {
        memory = ground (arith, memory, there.memory);
        files = λ p. ground (arith, there.files p, files p);
      }

  pub save_order-Wrote :
      (o : Order) (w v : World)
      → save_order env o w ≡ (ok tt, v)
      → Wrote (order_path env o.id) (json (encode_order o)) w v
  unfolding save_order write_json
  save_order-Wrote o w v h = saved (acme_path env ("orders" ∷ [])) _ _ w v h

  pub save_authz-Wrote :
      (a : Authorization) (w v : World)
      → save_authz env a w ≡ (ok tt, v)
      → Wrote (authz_path env a.id) (json (encode_authz a)) w v
  unfolding save_authz write_json
  save_authz-Wrote a w v h = saved (acme_path env ("authz" ∷ [])) _ _ w v h

  pub save_account-Wrote :
      (a : Account) (w v : World)
      → save_account env a w ≡ (ok tt, v)
      → Wrote (account_path env a.id) (json (encode_account a)) w v
  unfolding save_account write_json
  save_account-Wrote a w v h = saved (acme_path env ("accounts" ∷ [])) _ _ w v h

  -- An order whose save went through is loaded, under its id, as it was saved.
  pub load_order-save_order :
      (o : Order) (w v : World)
      → save_order env o w ≡ (ok tt, v)
      → load_order env o.id v ≡ (ok o, v)
  unfolding load_order read_json
  load_order-save_order o w v h = ground (
    arith,
    (save_order-Wrote o w v h).files (order_path env o.id),
    path_eq_refl (order_path env o.id),
    decode_order-encode_order o,
  )

  pub load_authz-save_authz :
      (a : Authorization) (w v : World)
      → save_authz env a w ≡ (ok tt, v)
      → load_authz env a.id v ≡ (ok a, v)
  unfolding load_authz read_json
  load_authz-save_authz a w v h = ground (
    arith,
    (save_authz-Wrote a w v h).files (authz_path env a.id),
    path_eq_refl (authz_path env a.id),
    decode_authz-encode_authz a,
  )

  pub load_account-save_account :
      (a : Account) (w v : World)
      → save_account env a w ≡ (ok tt, v)
      → load_account env a.id v ≡ (ok a, v)
  unfolding load_account read_json
  load_account-save_account a w v h = ground (
    arith,
    (save_account-Wrote a w v h).files (account_path env a.id),
    path_eq_refl (account_path env a.id),
    decode_account-encode_account a,
  )
