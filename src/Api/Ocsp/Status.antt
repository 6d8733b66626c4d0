-- ===== src/Api/Ocsp/Status.antt =====
-- internal/api/ocsp_handler.go: which status a new response has, also when the backend is not there.
use ad_pki_ca.Base.{
  ℕ, ◌+◌, ◌≡◌, ◌↔◌, ◌⊎◌, refl, sym, ap, ◌∙◌, eq_refl, Option-cases, true, Option, none, some, List,
  [], ◌∷◌, String, Bool-cases, inl, inr, arith, lookup, insert, lookup-insert,
}
use ad_pki_ca.Env.{Env, Revoked, OcspTemplate, revoked}
use ad_pki_ca.World.{World, ok}
use ad_pki_ca.Ca.Loader.{Ca}
use ad_pki_ca.Api.Http.{Response}
use ad_pki_ca.Api.Ocsp.{is_number, revoked_time, ocsp_template, ocsp_response, renew}
use ad_pki_ca.Api.Ocsp.Kept.{known_revocations, renew-eq-ok}

-- A serial number is among those of a list.
abbrev pub IsListed : ℕ → List Revoked → Type 0
IsListed serial [] = ⊥
IsListed serial (r ∷ rs) = (r.serial_number ≡ some serial) ⊎ IsListed serial rs

is_number-eq : (serial : ℕ) (n : Option ℕ) → (is_number serial n ≡ true) ↔ (n ≡ some serial)
is_number-eq serial none = (λ h. ground arith, λ h. ground arith)
is_number-eq serial (some n) = (λ h. ground arith, λ h. ground arith)

revoked_time-eq-none :
    (serial : ℕ) (listed : List Revoked)
    → revoked_time serial listed ≡ none
    → IsListed serial listed
    → ⊥
unfolding revoked_time
revoked_time-eq-none serial [] h k = k
revoked_time-eq-none serial (r ∷ rs) h (inl here) =
    ground (arith, is_number-eq serial r.serial_number)
revoked_time-eq-none serial (r ∷ rs) h (inr later) = ground (arith, revoked_time-eq-none serial rs)

revoked_time-eq-some :
    (serial t : ℕ) (listed : List Revoked)
    → revoked_time serial listed ≡ some t
    → IsListed serial listed
unfolding revoked_time
revoked_time-eq-some serial t [] h = ground arith
revoked_time-eq-some serial t (r ∷ rs) h = elim (Bool-cases (is_number serial r.serial_number)) [
  | inl here ↦ inl ((is_number-eq serial r.serial_number).0 here)
  | inr later ↦ inr (revoked_time-eq-some serial t rs (ground (arith, later, h)))
]

pub status-IsListed :
    (serial now : ℕ) (listed : List Revoked)
    → ((ocsp_template serial now (revoked_time serial listed)).status ≡ revoked)
      ↔ IsListed serial listed
unfolding ocsp_template
status-IsListed serial now listed = elim (Option-cases (revoked_time serial listed)) [
  | inl k ↦
      (λ h. absurd (ground (arith, h, k)), λ h. absurd (revoked_time-eq-none serial listed k h))
  | inr (t, k) ↦ (λ h. revoked_time-eq-some serial t listed k, λ h. ground (arith, k))
]

ocsp_template_times :
    (serial now : ℕ) (since : Option ℕ)
    → ((ocsp_template serial now since).serial_number ≡ serial)
      × ((ocsp_template serial now since).next_update ≡ now + 3600)
unfolding ocsp_template
ocsp_template_times serial now none = (refl, refl)
ocsp_template_times serial now (some t) = (refl, refl)

lookup_inserted :
    {V : Type 0} (key : String) (e : V) (m : List (String × V))
    → lookup key (insert key e m) ≡ some e
lookup_inserted key e m = ground (arith, lookup-insert key key e m, eq_refl key)

module _ (env : Env) where
  -- A new response, as it was made, answered and kept.
  pub record IsTold (serial : ℕ) (issuer : Ca env) (key : String) (w v : World) (resp : Response)
      : Type 0 where
    pub template : OcspTemplate
    pub content : String
    pub signed : env.create_ocsp w.draws issuer.cert issuer.cert template issuer.key ≡ some content
    pub number : template.serial_number ≡ serial
    pub status : (template.status ≡ revoked) ↔ IsListed serial (known_revocations env issuer.id w)
    pub answered : resp ≡ ocsp_response content
    pub kept :
        lookup key v.ocsp_cache
        ≡ some (record { content = content; expires_at = template.next_update })
    pub hour : template.next_update ≡ w.now + 3600

  -- A new response says "revoked" exactly if the serial number is among those that the backend names for
  -- the issuer; it is signed by the issuer, and kept until its next update, an hour later.
  pub renew-IsTold :
      (serial : ℕ) (issuer : Ca env) (key : String) (w v : World) (resp : Response)
      → renew env serial issuer key w ≡ (ok resp, v)
      → IsTold serial issuer key w v resp
  renew-IsTold serial issuer key w v resp h =
      let (content, made, is, after) = renew-eq-ok env serial issuer key w v resp h in
      let listed : List Revoked = known_revocations env issuer.id w in
      let (number, hour) = ocsp_template_times serial w.now (revoked_time serial listed) in
      record {
        template = ocsp_template serial w.now (revoked_time serial listed);
        content = content;
        signed = made.signed;
        number = number;
        status = status-IsListed serial w.now listed;
        answered = is;
        kept =
            ap (λ u. lookup key u.ocsp_cache) after
            ∙ lookup_inserted key (record { content = content; expires_at = w.now + 3600 })
                w.ocsp_cache
            ∙ ap (λ t. some (record { content = content; expires_at = t })) (sym hour);
        hour = hour;
      }
