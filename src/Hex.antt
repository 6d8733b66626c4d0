-- ===== src/Hex.antt =====
-- `big.Int.Text(16)` of a number that is not negative: its hexadecimal digits, "0" for zero.
pub mod Numerals
use Prim.Native.Char.{Char, code}
use Prim.Native.String
use Prim.Native.String.{slice}
use ad_pki_ca.Base.{◌+◌, ◌-◌, ◌*◌, ◌&&◌, Option, none, some, leb, ◌==◌}
use ad_pki_ca.Base.{
  ℕ, zero, suc, ◌/◌, ◌%◌, ◌≡◌, refl, ◌≤◌, arith, Bool-cases, inl, inr, String, ◌<>◌, ltb,
  if◌then◌else◌,
}

hex_digit : ℕ → String
hex_digit n = slice "0123456789abcdef" n (suc n)

-- The digits of `n` before those that are there; each round takes one, so `n` rounds are enough.
hex_from : ℕ → ℕ → String → String
unfolding hex_digit
hex_from zero n s = s
hex_from (suc f) n s =
    let more = hex_from f (n / 16) (hex_digit (n % 16) <> s) in
    if ltb n 16 then hex_digit n <> s else more

-- More rounds than the number itself change nothing: the loop was over before.
hex_from_enough : (f g n : ℕ) (s : String) → suc n ≤ f → suc n ≤ g → hex_from f n s ≡ hex_from g n s
unfolding hex_from
hex_from_enough zero g n s h k = absurd (omega (arith, h))
hex_from_enough (suc f) zero n s h k = absurd (omega (arith, k))
hex_from_enough (suc f) (suc g) n s h k = elim (Bool-cases (ltb n 16)) [
  | inl small ↦ ground (arith, small)
  | inr large ↦
      let big : 16 ≤ n = ground (arith, large) in
      ground (
        arith,
        large,
        hex_from_enough f g (n / 16) (hex_digit (n % 16) <> s) (omega (arith, big, h))
            (omega (arith, big, k)),
      )
]

unfoldable pub to_hex : ℕ → String
unfolding hex_from
to_hex n = hex_from (suc n) n ""

-- A hexadecimal digit, of either case.
unfoldable pub hex_value : Char → Option ℕ
hex_value c =
    let n = code c in
    if leb b'0' n && leb n b'9'
    then some (n - b'0')
    else if leb b'a' n && leb n b'f'
    then some (n - b'a' + 10)
    else if leb b'A' n && leb n b'F'
    then some (n - b'A' + 10)
    else none

unfoldable pub parse_from : ℕ → String → Option ℕ
unfolding hex_value
parse_from acc String.[] = some acc
parse_from acc (String.◌∷◌ c s) = elim (hex_value c) [
  | none ↦ none
  | some d ↦ parse_from (acc * 16 + d) s
]

-- `SetString(s, 16)`, for a text of hexadecimal digits; none for any other text.
unfoldable pub parse_hex : String → Option ℕ
unfolding parse_from
parse_hex s = if s == "" then none else parse_from 0 s

to_hex_serial : to_hex 3735928559 ≡ "deadbeef"
unfolding to_hex
to_hex_serial = refl
