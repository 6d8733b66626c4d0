-- ===== src/Api/Challenge/Begun.antt =====
-- internal/api/acme_handler.go: the goroutines that a request to the challenge handler starts.
use ad_pki_ca.Base.{◌≡◌, ◌≢◌, refl, ap, ◌∙◌, List, [], ◌∷◌, ◌++◌, String, inl, inr, arith, ◌⊎◌}
use ad_pki_ca.Env.{Env}
use ad_pki_ca.World.{World, Job, Exec, Outcome, ok, err, or_else, ◌>>=◌}
use ad_pki_ca.World.Laws.{Outcome-cases}
use ad_pki_ca.World.Keeps.{Keeps, >>=-Keeps}
use ad_pki_ca.Acme.Account.{new_id}
use ad_pki_ca.Acme.Storage.{load_authz}
use ad_pki_ca.Acme.Challenge.{find_challenge_by_id}
use ad_pki_ca.Api.Http.{
  Request, Response, add_nonce, generate, acme_error, err_not_found, with_nonce, merge,
}
use ad_pki_ca.Api.Http.Refusal.{Refuses, >>=-Refuses, or_else-Refuses}
use ad_pki_ca.Api.Signed.{
  decode_raw_protected, decode_kid_header, require_post, require_id, open_header, spend_nonce,
  read_header,
}
use ad_pki_ca.Api.Signed.Laws.{open_header-world}
use ad_pki_ca.Api.Account.{id_after}
use ad_pki_ca.Api.Challenge.{short_texts, method_refused, challenge_handler}
use ad_pki_ca.Api.Challenge.Schedule.{jobs_of}

-- An action that ends with an answer 200 and one goroutine more, or with another answer and none.
abbrev StartsOne : Exec Response Response → Type 0
StartsOne m =
    (w : World)
    → ((resp : Response) × (j : Job) × ((m w).0 ≡ ok resp)
        × (resp.status ≡ 200)
        × ((m w).1.jobs ≡ w.jobs ++ j ∷ []))
      ⊎ ((e : Response) × ((m w).0 ≡ err e) × (e.status ≢ 200) × ((m w).1.jobs ≡ w.jobs))

>>=-StartsOne :
    {A : Type 0} (m : Exec Response A) (f : A → Exec Response Response)
    → Refuses m
    → Keeps jobs_of m
    → ((a : A) → StartsOne (f a))
    → StartsOne (m >>= f)
>>=-StartsOne m f p q s w = elim (Outcome-cases (m w).0) [
  | inl (e, k) ↦ inr (e, ground (arith, k), p w e k, ground (arith, k, q w))
  | inr (a, k) ↦ elim (s a (m w).1) [
    | inl (resp, j, is_ok, good, more) ↦
        inl (resp, j, ground (arith, k, is_ok), good, ground (arith, k, more, q w))
    | inr (e, bad, refusal, same) ↦
        inr (e, ground (arith, k, bad), refusal, ground (arith, k, same, q w))
  ]
]

answered :
    (out : Outcome Response Response) (after js begun : List Job)
    → begun ≡ js
    → ((resp : Response) × (j : Job) × (out ≡ ok resp)
        × (resp.status ≡ 200)
        × (after ≡ begun ++ j ∷ []))
      ⊎ ((e : Response) × (out ≡ err e) × (e.status ≢ 200) × (after ≡ begun))
    → (((merge out).status ≡ 200) × (j : Job) × (after ≡ js ++ j ∷ []))
      ⊎ (((merge out).status ≢ 200) × (after ≡ js))
answered out after js begun same (inl (resp, j, is_ok, good, more)) =
    inl (ground (arith, is_ok, good), j, ground (arith, more, same))
answered out after js begun same (inr (e, bad, refusal, kept)) =
    inr (ground (arith, bad, refusal), kept ∙ same)

spend_nonce-Refuses : (k : String) → Refuses (spend_nonce k)
unfolding spend_nonce
spend_nonce-Refuses k w e h = ground arith

spend_nonce-jobs : (k : String) → Keeps jobs_of (spend_nonce k)
unfolding spend_nonce
spend_nonce-jobs k w = ground arith

require_post-Refuses : (r : Request) → Refuses (require_post method_refused r)
unfolding require_post
require_post-Refuses r w e h = ground arith

require_post-jobs : (r : Request) → Keeps jobs_of (require_post method_refused r)
unfolding require_post
require_post-jobs r w = ground arith

require_id-Refuses : (id detail : String) → Refuses (require_id id detail)
unfolding require_id
require_id-Refuses id detail w e h = ground arith

require_id-jobs : (id detail : String) → Keeps jobs_of (require_id id detail)
unfolding require_id
require_id-jobs id detail w = ground arith

module _ (env : Env) where
  find-jobs : (id : String) → Keeps jobs_of (find_challenge_by_id env id)
  unfolding find_challenge_by_id load_authz
  find-jobs id w = ground arith

  open_header-Refuses :
      (r : Request) → Refuses (open_header env short_texts decode_raw_protected decode_kid_header r)
  unfolding open_header
  open_header-Refuses r w e h = ground arith

  read_header-Refuses :
      (r : Request) → Refuses (read_header env short_texts decode_raw_protected decode_kid_header r)
  unfolding read_header
  read_header-Refuses r =
      >>=-Refuses (open_header env short_texts decode_raw_protected decode_kid_header r) _
        (open_header-Refuses r)
        (λ (body, h).
          >>=-Refuses (spend_nonce h.nonce) _ (spend_nonce-Refuses h.nonce)
            (λ _ u e k. absurd (ground (arith, k))))

  read_header-jobs :
      (r : Request)
      → Keeps jobs_of (read_header env short_texts decode_raw_protected decode_kid_header r)
  unfolding read_header
  read_header-jobs r =
      >>=-Keeps jobs_of (open_header env short_texts decode_raw_protected decode_kid_header r) _
        (λ w.
          ap jobs_of
            (open_header-world env short_texts decode_raw_protected decode_kid_header r w w).0)
        (λ (body, h).
          >>=-Keeps jobs_of (spend_nonce h.nonce) _ (spend_nonce-jobs h.nonce) (λ _ u. refl))

  add_nonce-jobs : (w : World) → (add_nonce env w).1.jobs ≡ w.jobs
  unfolding add_nonce generate new_id
  add_nonce-jobs w = ground arith

  -- A request to the challenge handler that is answered with 200 starts one goroutine, after those
  -- that wait already; one that is answered otherwise starts none.
  pub challenge_handler-jobs :
      (r : Request) (w : World)
      → (((challenge_handler env r w).0.status ≡ 200)
          × (j : Job) × ((challenge_handler env r w).1.jobs ≡ w.jobs ++ j ∷ []))
        ⊎ (((challenge_handler env r w).0.status ≢ 200)
            × ((challenge_handler env r w).1.jobs ≡ w.jobs))
  unfolding challenge_handler with_nonce read_header
  challenge_handler-jobs r w =
      let id : String = id_after "/acme/challenge/" r in
      let begun =
        >>=-StartsOne (require_post method_refused r) _ (require_post-Refuses r)
          (require_post-jobs r)
          (λ _.
            >>=-StartsOne (require_id id "missing challenge id") _ (require_id-Refuses _ _)
              (require_id-jobs _ _)
              (λ _.
                >>=-StartsOne
                  (or_else (find_challenge_by_id env id)
                    (λ _. acme_error err_not_found "challenge not found"))
                  _ (or_else-Refuses (find_challenge_by_id env id) _ (λ e. ground arith))
                  (find-jobs id)
                  (λ (authz, i, c).
                    >>=-StartsOne
                      (read_header env short_texts decode_raw_protected decode_kid_header r) _
                      (read_header-Refuses r) (read_header-jobs r)
                      (λ (body, h) u. inl (_, _, refl, refl, refl)))))
          (add_nonce env w).1 in
      answered _ _ w.jobs (add_nonce env w).1.jobs (add_nonce-jobs w) begun
