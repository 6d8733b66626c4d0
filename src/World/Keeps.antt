-- ===== src/World/Keeps.antt =====
-- Actions that keep what a function sees of the state, composed as the code composes them: `view` is
-- the part of the state, and `same_view` says that the files are not in it.
use ad_pki_ca.Base.{◌≡◌, refl, ◌∙◌, Option, none, some, Option-cases, inl, inr, arith}
use ad_pki_ca.Files.{FilePath, Content, Fs, write_file, failed_write}
use ad_pki_ca.World.{
  World, Outcome, Exec, ok, err, continue, on_fs, on_write, on_outcome, attempt, lift, ◌>>=◌,
}

module _ {X : Type 0} (view : World → X) where
  abbrev pub Keeps : {E A : Type 0} → Exec E A → Type 0
  Keeps m = (w : World) → view (m w).1 ≡ view w

  continue-Keeps :
      {E A B : Type 0} (r : Outcome E A) (f : A → Exec E B)
      → ((a : A) → Keeps (f a))
      → Keeps (continue r f)
  continue-Keeps (ok a) f q w = q a w
  continue-Keeps (err e) f q w = refl

  pub >>=-Keeps :
      {E A B : Type 0} (m : Exec E A) (f : A → Exec E B)
      → Keeps m
      → ((a : A) → Keeps (f a))
      → Keeps (m >>= f)
  >>=-Keeps m f p q w = continue-Keeps (m w).0 f q (m w).1 ∙ p w

  on_outcome-Keeps :
      {E F A B : Type 0} (r : Outcome E A) (f : A → Exec F B) (h : Exec F B)
      → ((a : A) → Keeps (f a))
      → Keeps h
      → Keeps (on_outcome r f h)
  on_outcome-Keeps (ok a) f h q k w = q a w
  on_outcome-Keeps (err e) f h q k w = k w

  pub attempt-Keeps :
      {E F A B : Type 0} (m : Exec E A) (f : A → Exec F B) (h : Exec F B)
      → Keeps m
      → ((a : A) → Keeps (f a))
      → Keeps h
      → Keeps (attempt m f h)
  attempt-Keeps m f h p q k w = on_outcome-Keeps (m w).0 f h q k (m w).1 ∙ p w

  pub lift-Keeps : {E A : Type 0} (o : Option A) (e : E) → Keeps (lift o e)
  lift-Keeps none e w = refl
  lift-Keeps (some a) e w = refl

  pub on_write-Keeps :
      {E : Type 0} (p : FilePath) (c : Content) (e : E)
      → ((fs : Fs) (w : World) → view (record w { fs = fs }) ≡ view w)
      → Keeps (on_write p c e)
  on_write-Keeps p c e same w = elim (Option-cases (write_file w.now p c w.fs)) [
    | inl failed ↦ ground (arith, failed, same (failed_write w.now p w.fs) w)
    | inr (fs, done) ↦ ground (arith, done, same fs w)
  ]

  pub on_fs-Keeps :
      {E : Type 0} (f : Fs → Option Fs) (e : E)
      → ((fs : Fs) (w : World) → view (record w { fs = fs }) ≡ view w)
      → Keeps (on_fs f e)
  on_fs-Keeps f e same w = elim (Option-cases (f w.fs)) [
    | inl refused ↦ ground (arith, refused)
    | inr (fs, done) ↦ ground (arith, done, same fs w)
  ]
