-- ===== src/Base/Map.antt =====
-- A JavaScript `Map` from strings: an association list in order of insertion.
use Prim.Native.String.{String}
use mathlib.Core.Path.{◌≡◌, refl}
use mathlib.Core.Option.{Option, none, some}
use mathlib.Core.List.{List, [], ◌∷◌}
use native.Mathlib.Omega.{arith}
use text.Mathlib.TextEquality.{eq_iff}
use sun_pilot.Base.Tests.{◌===◌, if◌then◌else◌}

abbrev pub Dict {ℓ} : Type ℓ → Type ℓ
Dict V = List (String × V)

module _ {ℓ} {V : Type ℓ} where
  -- `map.get(key)`
  unfoldable pub lookup : String → Dict V → Option V
  lookup key [] = none
  lookup key ((name, value) ∷ rest) = if name === key then some value else lookup key rest

  -- `map.set(key, value)`: a key that is there keeps its place.
  unfoldable pub insert : String → V → Dict V → Dict V
  insert key value [] = (key, value) ∷ []
  insert key value ((name, old) ∷ rest) =
      if name === key then (name, value) ∷ rest else (name, old) ∷ insert key value rest

  -- `map.delete(key)`
  unfoldable pub remove : String → Dict V → Dict V
  remove key [] = []
  remove key ((name, old) ∷ rest) =
      if name === key then remove key rest else (name, old) ∷ remove key rest

  pub lookup-remove :
      (key other : String) (map : Dict V)
      → lookup other (remove key map) ≡ (if key === other then none else lookup other map)
  unfolding lookup remove
  lookup-remove key other [] = ground arith
  lookup-remove key other ((name, old) ∷ rest) =
      ground
        (arith, lookup-remove key other rest, eq_iff name key, eq_iff name other, eq_iff key other)

  pub lookup-insert :
      (key other : String) (value : V) (map : Dict V)
      → lookup other (insert key value map)
        ≡ (if key === other then some value else lookup other map)
  unfolding lookup insert
  lookup-insert key other value [] = refl
  lookup-insert key other value ((name, old) ∷ rest) = ground (
    arith,
    lookup-insert key other value rest,
    eq_iff name key,
    eq_iff name other,
    eq_iff key other,
  )
