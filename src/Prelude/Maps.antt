-- ===== src/Prelude/Maps.antt =====
-- Go's `map[string]V` as a function; a missing key is `none`.
use Prim.Native.String.{String}
use mathlib.Core.Path.{◌≡◌}
use mathlib.Core.Option.{Option, none, some}
use mathlib.Core.List.{List, [], ◌∷◌}
use text.Mathlib.Text.{◌==◌ as str_eq}
use text.Mathlib.TextPositions.{eq_refl}
use mootd.Prelude.Tests.{if◌then◌else◌}

module _ {ℓ} {V : Type ℓ} where
  abbrev pub empty : String → Option V
  empty k = none

  -- m[k] = v
  abbrev pub update : (String → Option V) → String → V → String → Option V
  update m k v j = if str_eq k j then some v else m j

  -- delete(m, k)
  abbrev pub delete : (String → Option V) → String → String → Option V
  delete m k j = if str_eq k j then none else m j

  pub update_self : (m : String → Option V) (k : String) (v : V) → update m k v k ≡ some v
  update_self m k v = rw (eq_refl k)

abbrev pub Map {ℓ} : Type ℓ → Type ℓ
Map V = String → Option V

-- A map that the code walks or measures, as its entries.
module _ {ℓ} {V : Type ℓ} where
  abbrev pub lookup : List (String × V) → String → Option V
  lookup [] k = none
  lookup ((j, v) ∷ m) k = if str_eq j k then some v else lookup m k

  -- m[k] = v
  abbrev pub put : List (String × V) → String → V → List (String × V)
  put [] k v = (k, v) ∷ []
  put ((j, u) ∷ m) k v = if str_eq j k then (k, v) ∷ m else (j, u) ∷ put m k v
