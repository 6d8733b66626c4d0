-- ===== src/Api/Http/Extract.antt =====
-- internal/api/acme_handler.go: what `extractID` finds in a link.
use ad_pki_ca.Base.{
  ◌≡◌, ◌≢◌, Option-cases, inl, inr, String, ◌<>◌, strip_prefix, arith, strip_prefix_sound,
}
use text.Mathlib.TextLemmas.{nil-append, cons-append}
use ad_pki_ca.Api.Http.{extract_id}

-- Whatever `extractID` returns but "" stands behind an occurrence of the prefix: the link is some
-- text, the prefix, and the id.
pub extract_id_sound :
    (url prefix : String)
    → extract_id url prefix ≢ ""
    → (before : String) × (url ≡ before <> prefix <> extract_id url prefix)
unfolding extract_id
extract_id_sound String.[] prefix h = elim (Option-cases (strip_prefix prefix "")) [
  | inl nothing ↦ absurd (ground (arith, nothing))
  | inr (rest, found) ↦
      ("", rw nil-append (ground (arith, found, strip_prefix_sound prefix "" rest found)))
]
extract_id_sound (String.◌∷◌ c s) prefix h =
    elim (Option-cases (strip_prefix prefix (String.◌∷◌ c s))) [
      | inl later ↦
          let (before, eq) = extract_id_sound s prefix (ground (arith, later)) in
          (String.◌∷◌ c before, rw cons-append (ground (arith, later, eq)))
      | inr (rest, found) ↦ (
        "",
        rw nil-append
            (ground (arith, found, strip_prefix_sound prefix (String.◌∷◌ c s) rest found)),
      )
    ]
