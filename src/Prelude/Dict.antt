-- ===== src/Prelude/Dict.antt =====
-- A JavaScript `Map` with text keys: an association list in insertion order.
pub mod Maps
use Prim.Native.String.{String}
use mathlib.Core.Path.{◌≡◌, refl}
use mathlib.Core.Option.{Option, none, some}
use mathlib.Core.List.{List, [], ◌∷◌, map}
use native.Mathlib.Omega.{arith}
use atra_workunit_os.Prelude.Tests.{if◌then◌else◌}
use atra_workunit_os.Prelude.Text.{◌==◌, eq_iff}

abbrev pub Dict {ℓ} : Type ℓ → Type ℓ
Dict V = List (String × V)

module _ {ℓ} {V : Type ℓ} where
  -- `Map.get`
  abbrev pub lookup : String → Dict V → Option V
  lookup k [] = none
  lookup k ((j, v) ∷ m) = if j == k then some v else lookup k m

  -- `Map.set`: a key that is there keeps its place.
  abbrev pub insert : String → V → Dict V → Dict V
  insert k v [] = (k, v) ∷ []
  insert k v ((j, w) ∷ m) = if j == k then (j, v) ∷ m else (j, w) ∷ insert k v m

  -- `Map.values`
  abbrev pub values : Dict V → List V
  values m = map (λ e. e.1) m

  pub lookup-insert :
      (new key : String) (value : V) (m : Dict V)
      → lookup key (insert new value m) ≡ (if new == key then some value else lookup key m)
  lookup-insert new key value [] = refl
  lookup-insert new key value ((old, w) ∷ m) =
      let rest = lookup-insert new key value m in
      ground (arith, rest, eq_iff old new, eq_iff old key, eq_iff new key)
