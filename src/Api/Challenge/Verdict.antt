-- ===== src/Api/Challenge/Verdict.antt =====
-- internal/api/acme_handler.go: what a validation does to the authorization and to its order.
use ad_pki_ca.Base.{
  ℕ, zero, suc, some, ◌≡◌, refl, List, [], ◌∷◌, String, eq_iff, arith, Option-cases, inl, inr,
}
use ad_pki_ca.Env.{Env}
use ad_pki_ca.World.{World, Outcome, ok, err}
use ad_pki_ca.Acme.Types.{Challenge, Authorization, challenge_processing}
use ad_pki_ca.Acme.Storage.{save_authz, load_authz}
use ad_pki_ca.Acme.Storage.Laws.{load_authz-save_authz}
use ad_pki_ca.Acme.Order.{update_order_status}
use ad_pki_ca.Acme.Challenge.Validation.{validate_http01-world, validate_dns01-world}
use ad_pki_ca.Acme.Challenge.{find_challenge}
use ad_pki_ca.Api.Challenge.{
  get_elem?, set, replace_first, settle, settled, verdict, validate, run_validation, run_job,
  started,
}

-- `FindChallengeByID` finds the first challenge with the id, and says where it stands.
pub find_challenge_lem :
    (id : String) (cs : List Challenge) (i : ℕ) (c : Challenge)
    → find_challenge id cs ≡ some (i, c)
    → (get_elem? cs i ≡ some c) × (c.id ≡ id)
unfolding find_challenge
find_challenge_lem id [] i c h = cc
find_challenge_lem id (d ∷ ds) zero c h = elim (Option-cases (find_challenge id ds)) [
  | inl nowhere ↦ ground (arith, nowhere, eq_iff d.id id)
  | inr ((j, e), found) ↦ ground (arith, found, eq_iff d.id id)
]
find_challenge_lem id (d ∷ ds) (suc i) c h = elim (Option-cases (find_challenge id ds)) [
  | inl nowhere ↦ ground (arith, nowhere)
  | inr ((j, e), found) ↦ ground (arith, found, find_challenge_lem id ds j e found)
]

-- Copying `chall` over the first challenge with its id changes nothing after its place was written:
-- the pointer and the loop speak of the same challenge.
pub replace_first-set :
    (id : String) (cs : List Challenge) (i : ℕ) (c d : Challenge)
    → find_challenge id cs ≡ some (i, c)
    → d.id ≡ id
    → replace_first d (set cs i d) ≡ set cs i d
unfolding find_challenge replace_first
replace_first-set id [] i c d h same = refl
replace_first-set id (e ∷ es) zero c d h same = ground (arith, eq_iff d.id d.id)
replace_first-set id (e ∷ es) (suc i) c d h same = elim (Option-cases (find_challenge id es)) [
  | inl nowhere ↦ ground (arith, nowhere)
  | inr ((j, x), found) ↦
      ground
        (arith, found, replace_first-set id es j x d found same, eq_iff e.id d.id, eq_iff e.id id)
]

find_challenge-set :
    (id : String) (cs : List Challenge) (i : ℕ) (c d : Challenge)
    → find_challenge id cs ≡ some (i, c)
    → d.id ≡ id
    → find_challenge id (set cs i d) ≡ some (i, d)
unfolding find_challenge
find_challenge-set id [] i c d h same = ground arith
find_challenge-set id (e ∷ es) zero c d h same = ground (arith, eq_iff d.id id)
find_challenge-set id (e ∷ es) (suc i) c d h same = elim (Option-cases (find_challenge id es)) [
  | inl nowhere ↦ ground (arith, nowhere)
  | inr ((j, x), found) ↦ ground (arith, found, find_challenge-set id es j x d found same)
]

set-set : (cs : List Challenge) (i : ℕ) (c d : Challenge) → set (set cs i c) i d ≡ set cs i d
set-set [] i c d = refl
set-set (e ∷ es) zero c d = refl
set-set (e ∷ es) (suc i) c d = ground (arith, set-set es i c d)

get_elem?-set :
    (cs : List Challenge) (i : ℕ) (c d : Challenge)
    → get_elem? cs i ≡ some c
    → get_elem? (set cs i d) i ≡ some d
get_elem?-set [] i c d h = ground arith
get_elem?-set (e ∷ es) zero c d h = refl
get_elem?-set (e ∷ es) (suc i) c d h = get_elem?-set es i c d h

-- The challenge as the handler leaves it for the goroutine.
abbrev pub processing : Challenge → Challenge
processing c = record c { status = challenge_processing }

-- The authorization that the goroutine saves for an outcome.
abbrev judged_challenge : Outcome String (Unit {0}) → ℕ → Challenge → Challenge
judged_challenge (ok t) now c = record c { status = "valid"; validated_at = some now }
judged_challenge (err e) now c = record c { status = "invalid" }

abbrev judged_status : Outcome String (Unit {0}) → String
judged_status (ok t) = "valid"
judged_status (err e) = "invalid"

abbrev pub judged : Authorization → ℕ → Challenge → Outcome String (Unit {0}) → ℕ → Authorization
judged a i c out now = record a {
  status = judged_status out;
  challenges = set a.challenges i (judged_challenge out now c);
}

judged-settled :
    (a : Authorization) (i : ℕ) (c : Challenge) (out : Outcome String (Unit {0})) (now : ℕ)
    → judged a i c out now ≡ record a {
      status = verdict out;
      challenges = set a.challenges i (settled out now (processing c));
    }
judged-settled a i c (ok t) now = refl
judged-settled a i c (err e) now = refl

settled-id :
    (out : Outcome String (Unit {0})) (now : ℕ) (c : Challenge) → (settled out now c).id ≡ c.id
settled-id (ok x) now c = refl
settled-id (err e) now c = refl

settle-eq-judged :
    (a : Authorization) (i : ℕ) (c : Challenge) (out : Outcome String (Unit {0})) (now : ℕ)
    → find_challenge c.id a.challenges ≡ some (i, c)
    → settle out now i (processing c) (started a i c).authz ≡ judged a i c out now
unfolding settle
settle-eq-judged a i c out now found =
    rw (judged-settled a i c out now)
      let p = processing c in
        let s = settled out now p in
        rw (
          replace_first-set c.id (set a.challenges i p) i p s
              (find_challenge-set c.id a.challenges i c p found refl) (settled-id out now p),
          set-set a.challenges i p s,
        )

module _ (env : Env) where
  -- Validating changes nothing.
  validate-world : (a : Authorization) (c : Challenge) (w : World) → (validate env a c w).1 ≡ w
  unfolding validate
  validate-world a c w =
      ground (arith, validate_http01-world env a c w, validate_dns01-world env a c w)

  -- What the goroutine's validation says.
  abbrev pub outcome : Authorization → ℕ → Challenge → World → Outcome String (Unit {0})
  outcome a i c w = (validate env (started a i c).authz (processing c) w).0

  -- The goroutine that the challenge handler starts for a challenge saves the authorization with the
  -- validation's verdict, "valid" if it succeeded and "invalid" if not, on it and on that challenge,
  -- all other challenges being as they were, and then updates the order. The authorization can then
  -- be loaded so, if the save goes through.
  pub run_job_lem :
      (a : Authorization) (i : ℕ) (c : Challenge) (w v : World)
      → find_challenge c.id a.challenges ≡ some (i, c)
      → save_authz env (judged a i c (outcome a i c w) w.now) w ≡ (ok tt, v)
      → (run_job env (started a i c) w ≡ (update_order_status env a.order_id v).1)
        × (load_authz env a.id v ≡ (ok (judged a i c (outcome a i c w) w.now), v))
  unfolding run_job run_validation
  run_job_lem a i c w v found saved = (
    (let at_place = find_challenge_lem c.id a.challenges i c found in
        ground (
          arith,
          get_elem?-set a.challenges i c (processing c) at_place.0,
          settle-eq-judged a i c (validate env (started a i c).authz (processing c) w).0 w.now
              found,
          validate-world (started a i c).authz (processing c) w,
        )),
    load_authz-save_authz env _ w v saved,
  )
