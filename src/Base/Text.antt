-- ===== src/Base/Text.antt =====
-- Texts as the program cuts and joins them: Go's `+`, `strings.HasPrefix`, `strings.LastIndex`,
-- `strings.TrimSpace`, and the cut at slashes of `filepath.Join`.
use Prim.Native.Char.{Char, code}
use Prim.Native.String
use Prim.Native.String.{String}
use mathlib.Core.Bool.{Bool, true, false, ◌||◌, ◌&&◌}
use mathlib.Core.Path.{◌≡◌, refl}
use mathlib.Core.Option.{Option, none, some}
use mathlib.Core.List.{List, [], ◌∷◌}
use text.Mathlib.Text.{◌==◌}
use ad_pki_ca.Base.Tests.{leb, eqb, if◌then◌else◌}

infixr 65 ◌<>◌
-- Go's `s + t` on texts.
abbrev pub ◌<>◌ : String → String → String
s <> t = String.◌++◌ s t

-- A character is the slash of paths and links.
abbrev pub is_slash : Char → Bool
is_slash c = eqb (code c) b'/'

-- The text after a prefix, if it has the prefix (`strings.HasPrefix`, then a slice).
abbrev pub strip_prefix : String → String → Option String
strip_prefix String.[] s = some s
strip_prefix (String.◌∷◌ c p) String.[] = none
strip_prefix (String.◌∷◌ c p) (String.◌∷◌ d s) =
    let rest = strip_prefix p s in if eqb (code c) (code d) then rest else none

abbrev pub has_prefix : String → String → Bool
has_prefix p s = elim (strip_prefix p s) [ some _ ↦ true | none ↦ false ]

abbrev pub has_slash : String → Bool
has_slash String.[] = false
has_slash (String.◌∷◌ c s) = is_slash c || has_slash s

-- `s[strings.LastIndex(s, "/")+1:]`, all of `s` if it has no slash.
unfoldable pub after_last_slash : String → String
after_last_slash String.[] = ""
after_last_slash (String.◌∷◌ c s) =
    let later = after_last_slash s in
    if has_slash s then later else if is_slash c then s else String.◌∷◌ c s

cons_head : Char → List String → List String
cons_head c [] = String.◌∷◌ c "" ∷ []
cons_head c (s ∷ ss) = String.◌∷◌ c s ∷ ss

-- The pieces between slashes, the empty ones included.
unfoldable pub split_slash : String → List String
unfolding cons_head
split_slash String.[] = "" ∷ []
split_slash (String.◌∷◌ c s) =
    let rest = split_slash s in if is_slash c then "" ∷ rest else cons_head c rest

-- Go's `unicode.IsSpace`.
abbrev is_space : Char → Bool
is_space c =
    let n = code c in
    (leb 9 n && leb n 13)
    || eqb n 32
    || eqb n 0x85
    || eqb n 0xa0
    || eqb n 0x1680
    || (leb 0x2000 n && leb n 0x200a)
    || eqb n 0x2028
    || eqb n 0x2029
    || eqb n 0x202f
    || eqb n 0x205f
    || eqb n 0x3000

trim_left : String → String
trim_left String.[] = ""
trim_left (String.◌∷◌ c s) = let rest = trim_left s in if is_space c then rest else String.◌∷◌ c s

trim_right : String → String
trim_right String.[] = ""
trim_right (String.◌∷◌ c s) =
    let rest = trim_right s in
    if is_space c && (elim rest [ String.[] ↦ true | _ ↦ false ]) then "" else String.◌∷◌ c rest

unfoldable pub trim_space : String → String
unfolding trim_left trim_right
trim_space s = trim_right (trim_left s)

trim_space_inside : trim_space "  a b\n" ≡ "a b"
unfolding trim_space
trim_space_inside = refl

split_slash_pieces : split_slash "/a//bc" ≡ "" ∷ "a" ∷ "" ∷ "bc" ∷ []
unfolding split_slash
split_slash_pieces = refl

after_last_slash_url : after_last_slash "http://h/acme/authz/x1" ≡ "x1"
unfolding after_last_slash
after_last_slash_url = refl

-- The text before a suffix, if it has the suffix.
abbrev pub strip_suffix : String → String → Option String
strip_suffix p String.[] = if p == "" then some "" else none
strip_suffix p (String.◌∷◌ c s) =
    let rest = strip_suffix p s in
    if p == String.◌∷◌ c s
    then some ""
    else elim rest [ none ↦ none | some r ↦ some (String.◌∷◌ c r) ]

-- `strings.ReplaceAll(s, "/", "_")`
unfoldable pub replace_slashes : String → String
replace_slashes String.[] = ""
replace_slashes (String.◌∷◌ c s) =
    let rest = replace_slashes s in if is_slash c then "_" <> rest else String.◌∷◌ c rest

strip_suffix_json : strip_suffix ".json" "a.json" ≡ some "a"
strip_suffix_json = refl

-- `strings.Contains(s, p)`
abbrev pub contains : String → String → Bool
contains p String.[] = p == ""
contains p (String.◌∷◌ c s) = has_prefix p (String.◌∷◌ c s) || contains p s
