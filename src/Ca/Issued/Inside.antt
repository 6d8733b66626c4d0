-- ===== src/Ca/Issued/Inside.antt =====
-- internal/storage/certificate.go: where an issued certificate is stored.
use Prim.Native.Char.{code}
use text.Mathlib.TextLemmas.{nil-append, cons-append}
use ad_pki_ca.Config.{base_path}
use ad_pki_ca.Base.{
  Bool, true, false, ◌||◌, ◌≡◌, refl, [], ◌∷◌, String, ◌==◌, ◌<>◌, eqb, eq_iff, arith, has_slash,
  has_slash-append, split_slash, ap,
}
use ad_pki_ca.Env.{Env}
use ad_pki_ca.Files.{FilePath, join, enter_all, enter}
use ad_pki_ca.Ca.Issued.{safe_name, issued_dir}

-- A text with a dash, which "", "." and ".." are not.
abbrev has_dash : String → Bool
has_dash String.[] = false
has_dash (String.◌∷◌ c s) = eqb (code c) b'-' || has_dash s

has_dash-append : (s t : String) → has_dash (s <> t) ≡ (has_dash s || has_dash t)
has_dash-append String.[] t = rw nil-append
has_dash-append (String.◌∷◌ c s) t = rw cons-append (ground (arith, has_dash-append s t))

pub split_slash-single : (s : String) → has_slash s ≡ false → split_slash s ≡ s ∷ []
unfolding split_slash
split_slash-single String.[] h = refl
split_slash-single (String.◌∷◌ c s) h = ground (arith, split_slash-single s)

-- No slash is left in a sanitized name.
pub safe_name-has_slash : (s : String) → has_slash (safe_name s) ≡ false
unfolding safe_name
safe_name-has_slash String.[] = refl
safe_name-has_slash (String.◌∷◌ c s) =
    ground (arith, safe_name-has_slash s, has_slash-append "_" (safe_name s))

other_text : (s t : String) → has_dash s ≡ true → has_dash t ≡ false → (s == t) ≡ false
other_text s t h k = ground (arith, eq_iff s t, λ (e : s ≡ t). ap has_dash e)

enter-child : (p : FilePath) (s : String) → has_dash s ≡ true → enter p s ≡ s ∷ p
unfolding enter
enter-child p s h =
    rw (other_text s "" h refl, other_text s "." h refl, other_text s ".." h refl) refl

module _ (env : Env) where
  -- Whatever the common name, with a serial number without a slash the directory of a certificate is
  -- a child of the directory `issued`: no name leads out of it.
  pub issued_dir_lem :
      (common_name serial : String)
      → has_slash serial ≡ false
      → issued_dir env common_name serial
        ≡ (safe_name common_name <> "-" <> serial) ∷ "issued" ∷ base_path env
  unfolding join enter_all
  issued_dir_lem common_name serial h =
      let no_slash : has_slash (safe_name common_name <> "-" <> serial) ≡ false = ground (
        arith,
        has_slash-append (safe_name common_name) ("-" <> serial),
        has_slash-append "-" serial,
        safe_name-has_slash common_name,
      ) in
      let dash : has_dash (safe_name common_name <> "-" <> serial) ≡ true = ground (
        arith,
        has_dash-append (safe_name common_name) ("-" <> serial),
        has_dash-append "-" serial,
      ) in
      rw (split_slash-single (safe_name common_name <> "-" <> serial) no_slash)
        (enter-child ("issued" ∷ base_path env) (safe_name common_name <> "-" <> serial) dash)
