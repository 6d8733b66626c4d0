-- ===== src/Base/Maps.antt =====
-- Go's `map[string]V` as an association list: reading, setting and deleting a key.
use mathlib.Core.Path.{◌≡◌, refl}
use mathlib.Core.Option.{Option, none, some}
use mathlib.Core.List.{List, [], ◌∷◌}
use Prim.Native.String.{String}
use text.Mathlib.Text.{◌==◌}
use text.Mathlib.TextEquality.{eq_iff}
use native.Mathlib.Omega.{arith}
use ad_pki_ca.Base.Tests.{if◌then◌else◌}

module _ {ℓ} {V : Type ℓ} where
  unfoldable pub lookup : String → List (String × V) → Option V
  lookup k [] = none
  lookup k ((j, e) ∷ m) = if j == k then some e else lookup k m

  unfoldable pub insert : String → V → List (String × V) → List (String × V)
  insert k e [] = (k, e) ∷ []
  insert k e ((j, d) ∷ m) = if j == k then (k, e) ∷ m else (j, d) ∷ insert k e m

  -- `delete(m, k)`
  unfoldable pub remove : String → List (String × V) → List (String × V)
  remove k [] = []
  remove k ((j, e) ∷ m) = let rest = remove k m in if j == k then rest else (j, e) ∷ rest

  pub lookup-insert :
      (j k : String) (e : V) (m : List (String × V))
      → lookup j (insert k e m) ≡ (if k == j then some e else lookup j m)
  unfolding lookup insert
  lookup-insert j k e [] = refl
  lookup-insert j k e ((i, d) ∷ m) =
      ground (arith, eq_iff k j, eq_iff i k, eq_iff i j, lookup-insert j k e m)

  pub lookup-remove :
      (j k : String) (m : List (String × V))
      → lookup j (remove k m) ≡ (if k == j then none else lookup j m)
  unfolding lookup remove
  lookup-remove j k [] = ground arith
  lookup-remove j k ((i, d) ∷ m) =
      ground (arith, lookup-remove j k m, eq_iff i k, eq_iff i j, eq_iff k j)
