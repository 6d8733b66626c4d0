-- ===== src/Base64.antt =====
-- `base64.RawURLEncoding.EncodeToString`: three bytes become four characters of the URL-safe
-- alphabet, a rest of one or two bytes two or three, without padding.
use ad_pki_ca.Base.{
  ℕ, zero, suc, ◌+◌, ◌*◌, ◌/◌, ◌%◌, ◌≡◌, refl, false, List, [], ◌∷◌, String, ◌<>◌, has_slash,
  has_slash-append, arith,
}

abbrev alphabet : String
alphabet = "ABCDEFGHIJKLMNOPQRSTUVWXYZabcdefghijklmnopqrstuvwxyz0123456789-_"

-- The character at a place, as a text.
pick : ℕ → String → String
pick n String.[] = ""
pick zero (String.◌∷◌ c s) = String.◌∷◌ c ""
pick (suc n) (String.◌∷◌ c s) = pick n s

-- The character of a number below 64.
sextet : ℕ → String
unfolding pick
sextet n = pick n alphabet

unfoldable pub encode_url : List ℕ → String
unfolding sextet
encode_url [] = ""
encode_url (a ∷ []) = sextet (a / 4) <> sextet (a % 4 * 16)
encode_url (a ∷ b ∷ []) = sextet (a / 4) <> sextet (a % 4 * 16 + b / 16) <> sextet (b % 16 * 4)
encode_url (a ∷ b ∷ c ∷ rest) =
    sextet (a / 4)
    <> sextet (a % 4 * 16 + b / 16)
    <> sextet (b % 16 * 4 + c / 64)
    <> sextet (c % 64)
    <> encode_url rest

-- RFC 4648's test word "foobar", and a byte string that shows both special characters.
encode_url_foobar : encode_url (102 ∷ 111 ∷ 111 ∷ 98 ∷ 97 ∷ 114 ∷ []) ≡ "Zm9vYmFy"
unfolding encode_url
encode_url_foobar = refl

encode_url_special : encode_url (251 ∷ 255 ∷ []) ≡ "-_8"
unfolding encode_url
encode_url_special = refl

pick-has_slash : (n : ℕ) (s : String) → has_slash s ≡ false → has_slash (pick n s) ≡ false
unfolding pick
pick-has_slash n String.[] h = refl
pick-has_slash zero (String.◌∷◌ c s) h = ground arith
pick-has_slash (suc n) (String.◌∷◌ c s) h = pick-has_slash n s (ground arith)

sextet-has_slash : (n : ℕ) → has_slash (sextet n) ≡ false
unfolding sextet
sextet-has_slash n = pick-has_slash n alphabet refl

-- An encoded text is one piece of a path or a link.
pub encode_url-has_slash : (bytes : List ℕ) → has_slash (encode_url bytes) ≡ false
unfolding encode_url
encode_url-has_slash [] = refl
encode_url-has_slash (a ∷ []) = simp (has_slash-append, sextet-has_slash)
encode_url-has_slash (a ∷ b ∷ []) = simp (has_slash-append, sextet-has_slash)
encode_url-has_slash (a ∷ b ∷ c ∷ rest) =
    simp (has_slash-append, sextet-has_slash, encode_url-has_slash rest)
