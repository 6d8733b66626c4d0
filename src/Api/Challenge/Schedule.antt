-- ===== src/Api/Challenge/Schedule.antt =====
-- internal/api/acme_handler.go: the goroutines that wait, while one validates a challenge. `validate` reads
-- the state, and the rest of a goroutine writes files.
use ad_pki_ca.Base.{
  ◌≡◌, refl, ◌∙◌, ap, List, [], ◌∷◌, some, none, String, Option-cases, Bool-cases, inl, inr, arith,
  ◌==◌,
}
use ad_pki_ca.Env.{Env}
use ad_pki_ca.Files.{FilePath, mkdir_all}
use ad_pki_ca.World.{World, Job, pure}
use ad_pki_ca.World.Keeps.{Keeps, >>=-Keeps, attempt-Keeps, lift-Keeps, on_fs-Keeps, on_write-Keeps}
use ad_pki_ca.Json.{Json}
use ad_pki_ca.Acme.Types.{Challenge, Authorization, Order, encode_authz, encode_order}
use ad_pki_ca.Acme.Storage.{
  acme_path, ensure_dir, write_content, write_json, save_authz, save_order, load_order, authz_path,
  order_path,
}
use ad_pki_ca.Acme.Order.{update_order_status}
use ad_pki_ca.Acme.Challenge.Validation.{validate_http01-world, validate_dns01-world}
use ad_pki_ca.Api.Challenge.{get_elem?, settle, validate, run_validation, run_job}

abbrev pub jobs_of : World → List Job
jobs_of w = w.jobs

module _ (env : Env) where
  ensure_dir-jobs : (path : FilePath) → Keeps jobs_of (ensure_dir env path)
  unfolding ensure_dir
  ensure_dir-jobs path = on_fs-Keeps jobs_of (mkdir_all path) "mkdir" (λ fs w. refl)

  write_json-jobs : (path : FilePath) (v : Json) → Keeps jobs_of (write_json env path v)
  unfolding write_json write_content
  write_json-jobs path v = on_write-Keeps jobs_of path _ "write" (λ fs u. refl)

  save_authz-jobs : (a : Authorization) → Keeps jobs_of (save_authz env a)
  unfolding save_authz
  save_authz-jobs a =
      >>=-Keeps jobs_of (ensure_dir env (acme_path env ("authz" ∷ []))) _ (ensure_dir-jobs _)
        (λ _. write_json-jobs (authz_path env a.id) (encode_authz a))

  save_order-jobs : (o : Order) → Keeps jobs_of (save_order env o)
  unfolding save_order
  save_order-jobs o =
      >>=-Keeps jobs_of (ensure_dir env (acme_path env ("orders" ∷ []))) _ (ensure_dir-jobs _)
        (λ _. write_json-jobs (order_path env o.id) (encode_order o))

  load_order-jobs : (id : String) → Keeps jobs_of (load_order env id)
  unfolding load_order
  load_order-jobs id w = lift-Keeps jobs_of _ _ w

  update_order_status-jobs : (id : String) → Keeps jobs_of (update_order_status env id)
  unfolding update_order_status
  update_order_status-jobs id =
      attempt-Keeps jobs_of (load_order env id) _ (pure tt) (load_order-jobs id)
        (λ o w. save_order-jobs _ w) (λ w. refl)

  validate-jobs : (a : Authorization) (c : Challenge) → Keeps jobs_of (validate env a c)
  unfolding validate
  validate-jobs a c w = elim (Bool-cases (c.kind == "http-01")) [
    | inl by_http ↦ ground (arith, by_http, validate_http01-world env a c w)
    | inr other ↦ elim (Bool-cases (c.kind == "dns-01")) [
      | inl by_dns ↦ ground (arith, other, by_dns, validate_dns01-world env a c w)
      | inr odd ↦ ground (arith, other, odd)
    ]
  ]

  -- A goroutine starts no other.
  pub run_job-jobs : (j : Job) (w : World) → (run_job env j w).jobs ≡ w.jobs
  unfolding run_job run_validation
  run_job-jobs j w = elim (Option-cases (get_elem? j.authz.challenges j.at)) [
    | inl nowhere ↦ ground (arith, nowhere)
    | inr (c, there) ↦
        let u : World = (validate env j.authz c w).1 in
        let a : Authorization = settle (validate env j.authz c w).0 w.now j.at c j.authz in
        ap (λ o. jobs_of (elim o [ none ↦ w | some d ↦ run_validation env j.authz j.at d w ])) there
        ∙ update_order_status-jobs j.authz.order_id (save_authz env a u).1
        ∙ save_authz-jobs a u
        ∙ validate-jobs j.authz c w
  ]
