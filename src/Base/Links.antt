-- ===== src/Base/Links.antt =====
-- Slashes in texts: a link that ends in a name gives the name back.
use Prim.Native.String.{String}
use mathlib.Core.Path.{◌≡◌, refl, sym, ap, ◌∙◌}
use mathlib.Core.Option.{some}
use Prim.Native.Char.{Char, code}
use text.Mathlib.TextEquality.{Char-path}
use ad_pki_ca.Base.Tests.{eqb}
use mathlib.Core.Bool.{Bool, true, false, ◌||◌}
use native.Mathlib.Omega.{arith}
use text.Mathlib.TextLemmas.{nil-append, cons-append, append_assoc}
use ad_pki_ca.Base.Text.{◌<>◌, has_slash, after_last_slash, strip_prefix}

pub has_slash-append : (s t : String) → has_slash (s <> t) ≡ (has_slash s || has_slash t)
has_slash-append String.[] t = rw nil-append
has_slash-append (String.◌∷◌ c s) t = rw cons-append (ground (arith, has_slash-append s t))

after_last_slash-append :
    (q t : String) → has_slash t ≡ false → after_last_slash ((q <> "/") <> t) ≡ t
unfolding after_last_slash
after_last_slash-append String.[] t h = rw (nil-append, cons-append, nil-append, h)
after_last_slash-append (String.◌∷◌ c q) t h =
    rw (cons-append, cons-append, has_slash-append (q <> "/") t, has_slash-append q "/")
      (ground (arith, after_last_slash-append q t h))

-- The name that was put behind a base and a literal that ends in a slash.
pub after_last_slash-link :
    (base t : String) → has_slash t ≡ false → after_last_slash (base <> "/acme/authz/" <> t) ≡ t
after_last_slash-link base t h =
    ap after_last_slash (
      sym (append_assoc base "/acme/authz/" t)
      ∙ ap (λ s. s <> t) (sym (append_assoc base "/acme/authz" "/")))
    ∙ after_last_slash-append (base <> "/acme/authz") t h

pub char_by_code : (c d : Char) → eqb (code c) (code d) ≡ true → c ≡ d
char_by_code c d h = Char-path c d (ground arith)

-- A prefix that was stripped is there.
pub strip_prefix_sound : (p s r : String) → strip_prefix p s ≡ some r → s ≡ p <> r
strip_prefix_sound String.[] s r h = rw nil-append (ground arith)
strip_prefix_sound (String.◌∷◌ c p) String.[] r h = ground arith
strip_prefix_sound (String.◌∷◌ c p) (String.◌∷◌ d s) r h =
    rw cons-append (ground (arith, char_by_code c d, strip_prefix_sound p s r))

pub strip_prefix-append : (p r : String) → strip_prefix p (p <> r) ≡ some r
strip_prefix-append String.[] r = rw nil-append
strip_prefix-append (String.◌∷◌ c p) r = rw cons-append (ground (arith, strip_prefix-append p r))

abbrev pub has_colon : String → Bool
has_colon String.[] = false
has_colon (String.◌∷◌ c s) = eqb (code c) b':' || has_colon s

has_colon-append : (s t : String) → has_colon (s <> t) ≡ (has_colon s || has_colon t)
has_colon-append String.[] t = rw nil-append
has_colon-append (String.◌∷◌ c s) t = rw cons-append (ground (arith, has_colon-append s t))

same_parts : {c d : Char} {s t : String} → String.◌∷◌ c s ≡ String.◌∷◌ d t → (c ≡ d) × (s ≡ t)
same_parts h = (cc, cc)

-- No text with a colon before its end is one without.
colon_apart :
    (c : Char) (a b b' : String)
    → has_colon b ≡ false
    → String.◌∷◌ ":" b ≡ String.◌∷◌ c (a <> String.◌∷◌ ":" b')
    → ⊥
colon_apart c a b b' p h =
    let seen : has_colon b ≡ (has_colon a || true) =
      ap has_colon (same_parts h).1 ∙ has_colon-append a (String.◌∷◌ ":" b') in
    ground (arith, seen, p)

last_cut :
    (a a' b b' : String)
    → has_colon b ≡ false
    → has_colon b' ≡ false
    → a <> String.◌∷◌ ":" b ≡ a' <> String.◌∷◌ ":" b'
    → (a ≡ a') × (b ≡ b')
last_cut String.[] String.[] b b' p q h = (
  refl,
  (same_parts (sym (nil-append (String.◌∷◌ ":" b)) ∙ h ∙ nil-append (String.◌∷◌ ":" b'))).1,
)
last_cut String.[] (String.◌∷◌ c a') b b' p q h = absurd (
    colon_apart c a' b b' p
      (sym (nil-append (String.◌∷◌ ":" b)) ∙ h ∙ cons-append c a' (String.◌∷◌ ":" b')))
last_cut (String.◌∷◌ c a) String.[] b b' p q h = absurd (
    colon_apart c a b' b q
      (sym (nil-append (String.◌∷◌ ":" b')) ∙ sym h ∙ cons-append c a (String.◌∷◌ ":" b)))
last_cut (String.◌∷◌ c a) (String.◌∷◌ c' a') b b' p q h =
    let here =
      same_parts
        (sym (cons-append c a (String.◌∷◌ ":" b)) ∙ h ∙ cons-append c' a' (String.◌∷◌ ":" b')) in
    let rest = last_cut a a' b b' p q here.1 in (cc, rest.1)

colon_cons : (b : String) → ":" <> b ≡ String.◌∷◌ ":" b
colon_cons b = rw (cons-append, nil-append) refl

-- Two texts that are cut at their last colon are the same only if their parts are.
pub last_colon :
    (a a' b b' : String)
    → has_colon b ≡ false
    → has_colon b' ≡ false
    → a <> ":" <> b ≡ a' <> ":" <> b'
    → (a ≡ a') × (b ≡ b')
last_colon a a' b b' p q h =
    last_cut a a' b b' p q
      (sym (ap (λ t. a <> t) (colon_cons b)) ∙ h ∙ ap (λ t. a' <> t) (colon_cons b'))
