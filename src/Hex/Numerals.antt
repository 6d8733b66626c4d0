-- ===== src/Hex/Numerals.antt =====
-- Hexadecimal numerals, as `big.Int.Text(16)` writes and `SetString(s, 16)` reads them.
use Prim.Native.Char.{Char, code}
use text.Mathlib.TextLemmas.{nil-append, cons-append}
use ad_pki_ca.Base.{
  ℕ, zero, suc, ◌+◌, ◌*◌, ◌/◌, ◌%◌, ◌≤◌, ◌<◌, ◌≡◌, refl, sym, ap, ◌∙◌, some, true, false, String,
  ◌<>◌, ◌==◌, ltb, has_colon, eqb, eq_iff, arith, Bool-cases, inl, inr,
}
use ad_pki_ca.Hex.{hex_digit, hex_from, to_hex, hex_value, parse_from, parse_hex}

-- The digit of a number below 16 is a character that stands for that number.
digit-value :
    (d : ℕ)
    → d < 16
    → (c : Char) × (hex_digit d ≡ String.◌∷◌ c "")
      × (hex_value c ≡ some d)
      × (eqb (code c) b':' ≡ false)
unfolding hex_digit hex_value
digit-value zero h = ("0", refl, refl, refl)
digit-value (suc zero) h = ("1", refl, refl, refl)
digit-value (suc (suc zero)) h = ("2", refl, refl, refl)
digit-value (suc (suc (suc zero))) h = ("3", refl, refl, refl)
digit-value (suc (suc (suc (suc zero)))) h = ("4", refl, refl, refl)
digit-value (suc (suc (suc (suc (suc zero))))) h = ("5", refl, refl, refl)
digit-value (suc (suc (suc (suc (suc (suc zero)))))) h = ("6", refl, refl, refl)
digit-value (suc (suc (suc (suc (suc (suc (suc zero))))))) h = ("7", refl, refl, refl)
digit-value (suc (suc (suc (suc (suc (suc (suc (suc zero)))))))) h = ("8", refl, refl, refl)
digit-value (suc (suc (suc (suc (suc (suc (suc (suc (suc zero))))))))) h = ("9", refl, refl, refl)
digit-value (suc (suc (suc (suc (suc (suc (suc (suc (suc (suc zero)))))))))) h =
    ("a", refl, refl, refl)
digit-value (suc (suc (suc (suc (suc (suc (suc (suc (suc (suc (suc zero))))))))))) h =
    ("b", refl, refl, refl)
digit-value (suc (suc (suc (suc (suc (suc (suc (suc (suc (suc (suc (suc zero)))))))))))) h =
    ("c", refl, refl, refl)
digit-value (suc (suc (suc (suc (suc (suc (suc (suc (suc (suc (suc (suc (suc zero))))))))))))) h =
    ("d", refl, refl, refl)
digit-value (suc (suc (suc (suc (suc (suc (suc (suc (suc (suc (suc (suc (suc (suc zero))))))))))))))
      h =
    ("e", refl, refl, refl)
digit-value
      (suc (suc (suc (suc (suc (suc (suc (suc (suc (suc (suc (suc (suc (suc (suc zero)))))))))))))))
      h =
    ("f", refl, refl, refl)
digit-value
      (suc
        (suc (suc (suc (suc (suc (suc (suc (suc (suc (suc (suc (suc (suc (suc (suc n))))))))))))))))
      h =
    absurd (omega (arith, h))

parse_from-digit :
    (a d : ℕ) (c : Char) (s : String)
    → hex_value c ≡ some d
    → parse_from a (String.◌∷◌ c s) ≡ parse_from (a * 16 + d) s
unfolding parse_from
parse_from-digit a d c s h = ground (arith, h)

parse_from-hex_digit :
    (a d : ℕ) (s : String) → d < 16 → parse_from a (hex_digit d <> s) ≡ parse_from (a * 16 + d) s
parse_from-hex_digit a d s h =
    let (c, shows, means, plain) = digit-value d h in
    rw (shows, cons-append, nil-append) (parse_from-digit a d c s means)

parse_from-hex_from :
    (f n : ℕ) (s : String) → suc n ≤ f → parse_from 0 (hex_from f n s) ≡ parse_from n s
unfolding hex_from
parse_from-hex_from zero n s h = absurd (omega arith)
parse_from-hex_from (suc f) n s h = elim (Bool-cases (ltb n 16)) [
  | inl small ↦
      rw small (
        parse_from-hex_digit 0 n s (ground (arith, small)) ∙ ap (λ k. parse_from k s) (omega arith))
  | inr large ↦
      let big : 16 ≤ n = ground (arith, large) in
      rw
        (
          large,
          parse_from-hex_from f (n / 16) (hex_digit (n % 16) <> s) (omega (arith, big, h)),
          parse_from-hex_digit (n / 16) (n % 16) s (omega arith),
        )
        (ap (λ k. parse_from k s) (omega arith))
]

has_colon-hex_digit : (d : ℕ) (s : String) → d < 16 → has_colon (hex_digit d <> s) ≡ has_colon s
has_colon-hex_digit d s h =
    let (c, shows, means, plain) = digit-value d h in
    rw (shows, cons-append, nil-append) (ground (arith, plain))

has_colon-hex_from : (f n : ℕ) (s : String) → suc n ≤ f → has_colon (hex_from f n s) ≡ has_colon s
unfolding hex_from
has_colon-hex_from zero n s h = absurd (omega (arith, h))
has_colon-hex_from (suc f) n s h = elim (Bool-cases (ltb n 16)) [
  | inl small ↦ rw small (has_colon-hex_digit n s (ground (arith, small)))
  | inr large ↦
      let big : 16 ≤ n = ground (arith, large) in
      rw large (
        has_colon-hex_from f (n / 16) (hex_digit (n % 16) <> s) (omega (arith, big, h))
        ∙ has_colon-hex_digit (n % 16) s (omega arith))
]

-- No digit is a colon.
pub has_colon-to_hex : (n : ℕ) → has_colon (to_hex n) ≡ false
unfolding to_hex
has_colon-to_hex n = has_colon-hex_from (suc n) n "" (omega arith)

to_hex-zero : to_hex zero ≡ "0"
unfolding to_hex
to_hex-zero = refl

digits_of : (n : ℕ) → parse_from 0 (to_hex n) ≡ some n
unfolding to_hex parse_from
digits_of n = parse_from-hex_from (suc n) n "" (omega arith)

no_digits : parse_from 0 "" ≡ some 0
unfolding parse_from
no_digits = refl

unnamed_zero : (n : ℕ) → to_hex n ≡ "" → n ≡ zero
unnamed_zero n h =
    let same : some n ≡ some 0 = sym (digits_of n) ∙ ap (parse_from 0) h ∙ no_digits in
    ground (arith, same)

shown : (s : String) → s ≡ "0" → s ≡ "" → ⊥
shown s h k = let wrong : false ≡ true = ap (λ t. t == "") (sym h ∙ k) in ground (arith, wrong)

to_hex_named : (n : ℕ) → (to_hex n == "") ≡ false
to_hex_named n = elim (Bool-cases (to_hex n == "")) [
  | inr named ↦ named
  | inl unnamed ↦
      let here = (eq_iff (to_hex n) "").0 unnamed in
      absurd (shown (to_hex n) (ap to_hex (unnamed_zero n here) ∙ to_hex-zero) here)
]

-- A number is read from its hexadecimal digits as it was written.
pub parse_hex-to_hex : (n : ℕ) → parse_hex (to_hex n) ≡ some n
unfolding parse_hex
parse_hex-to_hex n = rw (to_hex_named n) (digits_of n)

-- Different numbers have different digits.
pub to_hex_injective : (m n : ℕ) → to_hex m ≡ to_hex n → m ≡ n
to_hex_injective m n h =
    let same : some m ≡ some n = sym (parse_hex-to_hex m) ∙ ap parse_hex h ∙ parse_hex-to_hex n in
    ground (arith, same)
