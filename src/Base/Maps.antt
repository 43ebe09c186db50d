-- ===== src/Base/Maps.antt =====
-- `HashMap` with text keys, as an association list with one entry for each key. The iteration
-- order of a `HashMap` is unspecified: theorems range over every list.
use Prim.Native.String.{String}
use mathlib.Core.Path.{◌≡◌, refl}
use mathlib.Core.Option.{Option, none, some}
use mathlib.Core.List.{List, [], ◌∷◌}
use native.Mathlib.Omega.{arith}
use text.Mathlib.Text.{◌==◌}
use text.Mathlib.TextEquality.{eq_iff}
use bluecross.Base.Tests.{if◌then◌else◌}

module _ {ℓ} {Value : Type ℓ} where
  unfoldable pub lookup : String → List (String × Value) → Option Value
  lookup key [] = none
  lookup key ((found, value) ∷ entries) = if found == key then some value else lookup key entries

  -- A value that is replaced leaves its entry in place.
  unfoldable pub insert : String → Value → List (String × Value) → List (String × Value)
  insert key value [] = (key, value) ∷ []
  insert key value ((found, old) ∷ entries) =
      if found == key then (key, value) ∷ entries else (found, old) ∷ insert key value entries

  unfoldable pub remove : String → List (String × Value) → List (String × Value)
  remove key [] = []
  remove key ((found, value) ∷ entries) =
      if found == key then remove key entries else (found, value) ∷ remove key entries

  pub lookup-insert :
      (key asked : String) (value : Value) (entries : List (String × Value))
      → lookup asked (insert key value entries)
        ≡ (if key == asked then some value else lookup asked entries)
  unfolding insert lookup
  lookup-insert key asked value [] = refl
  lookup-insert key asked value ((found, old) ∷ entries) = ground (
    arith,
    lookup-insert key asked value entries,
    eq_iff found asked,
    eq_iff found key,
    eq_iff key asked,
  )

  pub lookup-remove :
      (key asked : String) (entries : List (String × Value))
      → lookup asked (remove key entries) ≡ (if key == asked then none else lookup asked entries)
  unfolding remove lookup
  lookup-remove key asked [] = ground arith
  lookup-remove key asked ((found, value) ∷ entries) = ground (
    arith,
    lookup-remove key asked entries,
    eq_iff found asked,
    eq_iff found key,
    eq_iff key asked,
  )
