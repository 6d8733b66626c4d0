-- ===== src/Api/Http/Refusal.antt =====
-- Handlers that end early: none of their errors is an answer 200. Composed as the handlers are.
use ad_pki_ca.Base.{◌≡◌, ◌≢◌, Bool, Option, none, some, arith, inl, inr}
use ad_pki_ca.World.{World, Exec, ok, err, pure, require, lift, reads, or_else, ◌>>=◌}
use ad_pki_ca.World.Laws.{Outcome-cases}
use ad_pki_ca.Api.Http.{Response, merge}

abbrev pub Refuses : {A : Type 0} → Exec Response A → Type 0
Refuses m = (w : World) (e : Response) → (m w).0 ≡ err e → e.status ≢ 200

module _ {A : Type 0} where
  pub >>=-Refuses :
      {B : Type 0} (m : Exec Response A) (f : A → Exec Response B)
      → Refuses m
      → ((a : A) → Refuses (f a))
      → Refuses (m >>= f)
  >>=-Refuses m f p q w e h = elim (Outcome-cases (m w).0) [
    | inl (d, k) ↦ ground (arith, k, h, p w d k)
    | inr (a, k) ↦ q a (m w).1 e (ground (arith, k, h))
  ]

  pub or_else-Refuses :
      {E : Type 0} (m : Exec E A) (f : E → Response)
      → ((e : E) → (f e).status ≢ 200)
      → Refuses (or_else m f)
  or_else-Refuses m f p w e h = elim (Outcome-cases (m w).0) [
    | inl (d, k) ↦ ground (arith, k, h, p d)
    | inr (a, k) ↦ absurd (ground (arith, k, h))
  ]

  pub lift-Refuses : (o : Option A) (e : Response) → e.status ≢ 200 → Refuses (lift o e)
  lift-Refuses none e p w d h = ground (arith, h, p)
  lift-Refuses (some a) e p w d h = absurd (ground (arith, h))

  pub pure-Refuses : (a : A) → Refuses (pure a)
  pure-Refuses a w e h = absurd (ground (arith, h))

  pub reads-Refuses : (f : World → A) → Refuses (reads f)
  reads-Refuses f w e h = absurd (ground (arith, h))

pub require-Refuses : (b : Bool) (e : Response) → e.status ≢ 200 → Refuses (require b e)
require-Refuses b e p w d h = ground (arith, p, h)

-- A handler that answered 200 had no error.
pub merge-200 :
    (core : Exec Response Response) (w : World)
    → Refuses core
    → (merge (core w).0).status ≡ 200
    → (resp : Response) × ((core w).0 ≡ ok resp)
merge-200 core w p h = elim (Outcome-cases (core w).0) [
  | inl (e, k) ↦ absurd (ground (arith, k, h, p w e k))
  | inr (resp, k) ↦ (resp, k)
]
