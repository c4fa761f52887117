-- ===== src/Prelude/Dict.antt =====
-- A JavaScript `Map` with text keys: an association list in insertion order.
use Prim.Native.Nat.{suc}
use Prim.Native.String.{String}
use mathlib.Core.Path.{◌≡◌, refl}
use mathlib.Core.Option.{Option, none, some}
use mathlib.Core.List.{List, [], ◌∷◌}
use native.Mathlib.Omega.{arith}
use text.Mathlib.Text.{◌==◌ as str_eq}
use text.Mathlib.TextEquality.{eq_iff}
use cantelop_sdk.Prelude.Tests.{if◌then◌else◌, is_some}
use cantelop_sdk.Prelude.Lists.{length}

module _ {ℓ} {V : Type ℓ} where
  -- `get`.
  abbrev pub lookup : String → List (String × V) → Option V
  lookup key [] = none
  lookup key ((key', value) ∷ map) =
      let further = lookup key map in if str_eq key' key then some value else further

  -- `set`: a key that is there keeps its place.
  abbrev pub insert : String → V → List (String × V) → List (String × V)
  insert key new [] = (key, new) ∷ []
  insert key new ((key', old) ∷ map) =
      let further = insert key new map in
      if str_eq key' key then (key', new) ∷ map else (key', old) ∷ further

  -- `delete`.
  abbrev pub erase : String → List (String × V) → List (String × V)
  erase key [] = []
  erase key ((key', old) ∷ map) =
      let further = erase key map in if str_eq key' key then map else (key', old) ∷ further

  pub lookup-insert :
      (key other : String) (new : V) (map : List (String × V))
      → lookup other (insert key new map)
        ≡ (if str_eq key other then some new else lookup other map)
  lookup-insert key other new [] = refl
  lookup-insert key other new ((key', old) ∷ map) =
      ground (
        arith,
        lookup-insert key other new map,
        eq_iff key' key,
        eq_iff key' other,
        eq_iff key other,
      )

  pub length-insert :
      (k : String) (v : V) (m : List (String × V))
      → length (insert k v m) ≡ (if is_some (lookup k m) then length m else suc (length m))
  length-insert k v [] = refl
  length-insert k v ((i, w) ∷ m) = ground (arith, length-insert k v m)
