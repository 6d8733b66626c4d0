-- ===== src/World/Laws.antt =====
-- How an action that ended with `ok` got there, and what its steps kept.
use ad_pki_ca.Base.{◌≡◌, refl, Option, some, Option-cases, inl, inr, arith, ◌⊎◌}
use ad_pki_ca.Files.{FilePath, Content, Fs, write_file}
use ad_pki_ca.World.{World, Outcome, Exec, ok, err, continue, on_fs, on_write, or_else, ◌>>=◌}

module _ {E A B : Type 0} where
  continue-eq-ok :
      (r : Outcome E A) (f : A → Exec E B) (u v : World) (b : B)
      → continue r f u ≡ (ok b, v)
      → (a : A) × (r ≡ ok a) × (f a u ≡ (ok b, v))
  continue-eq-ok (ok a) f u v b h = (a, refl, h)
  continue-eq-ok (err e) f u v b h = ground arith

  -- Both parts of a `do` ended with `ok`.
  pub >>=-eq-ok :
      (m : Exec E A) (f : A → Exec E B) (w v : World) (b : B)
      → (m >>= f) w ≡ (ok b, v)
      → (a : A) × (u : World) × (m w ≡ (ok a, u)) × (f a u ≡ (ok b, v))
  >>=-eq-ok m f w v b h =
      let (a, e, k) = continue-eq-ok (m w).0 f (m w).1 v b h in
      (a, (m w).1, (λ i. (e i, (m w).1)), k)

pub on_fs-eq-ok :
    {E : Type 0} (f : Fs → Option Fs) (e : E) (w v : World)
    → on_fs f e w ≡ (ok tt, v)
    → (fs : Fs) × (f w.fs ≡ some fs) × (v ≡ record w { fs = fs })
on_fs-eq-ok f e w v h = elim (Option-cases (f w.fs)) [
  | inl none_there ↦ ground arith
  | inr (fs, there) ↦ (fs, there, ground arith)
]

pub on_write-eq-ok :
    {E : Type 0} (p : FilePath) (c : Content) (e : E) (w v : World)
    → on_write p c e w ≡ (ok tt, v)
    → (fs : Fs) × (write_file w.now p c w.fs ≡ some fs) × (v ≡ record w { fs = fs })
on_write-eq-ok p c e w v h = elim (Option-cases (write_file w.now p c w.fs)) [
  | inl none_there ↦ ground arith
  | inr (fs, there) ↦ (fs, there, ground arith)
]

pub Outcome-cases :
    {E A : Type 0} (o : Outcome E A) → ((e : E) × (o ≡ err e)) ⊎ ((a : A) × (o ≡ ok a))
Outcome-cases (ok a) = inr (a, refl)
Outcome-cases (err e) = inl (e, refl)

-- An action with its error renamed ended with `ok` as the action did.
pub or_else-eq-ok :
    {E F A : Type 0} (m : Exec E A) (f : E → F) (w v : World) (a : A)
    → or_else m f w ≡ (ok a, v)
    → m w ≡ (ok a, v)
or_else-eq-ok m f w v a h = elim (Outcome-cases (m w).0) [
  | inl (e, k) ↦ absurd (ground (arith, k))
  | inr (b, k) ↦ ground (arith, k)
]
