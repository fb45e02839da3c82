-- ===== src/Base/Maps.antt =====
-- Go maps with string keys as association lists.
use mathlib.Core.Path.{◌≡◌, refl}
use mathlib.Core.Logic.{◌≢◌}
use mathlib.Core.Option.{Option, none, some}
use mathlib.Core.List.{List, [], ◌∷◌}
use native.Mathlib.Omega.{arith}
use kubedns_shepherd.Base.Tests.{if◌then◌else◌}
use kubedns_shepherd.Base.Strings.{Text, text_eq, text_eq_iff, text_eq_refl, text_eq-false}

module _ {ℓ} {V : Type ℓ} where
  -- `v, ok := m[key]`
  unfoldable pub lookup : Text → List (Text × V) → Option V
  lookup key [] = none
  lookup key ((k, v) ∷ m) = if text_eq k key then some v else lookup key m

  -- `m[key] = value`
  unfoldable pub assign : Text → V → List (Text × V) → List (Text × V)
  assign key value [] = (key, value) ∷ []
  assign key value ((k, v) ∷ m) =
      if text_eq k key then (key, value) ∷ m else (k, v) ∷ assign key value m

  pub lookup-assign :
      (key j : Text) (value : V) (m : List (Text × V))
      → lookup j (assign key value m) ≡ (if text_eq key j then some value else lookup j m)
  unfolding lookup assign
  lookup-assign key j value [] = refl
  lookup-assign key j value ((k, v) ∷ m) =
      ground
        (arith, text_eq_iff key j, text_eq_iff k key, text_eq_iff k j, lookup-assign key j value m)

  pub lookup-assign_self :
      (key : Text) (value : V) (m : List (Text × V)) → lookup key (assign key value m) ≡ some value
  lookup-assign_self key value m = rw (lookup-assign, text_eq_refl)

  pub lookup-assign_ne :
      (key j : Text) (value : V) (m : List (Text × V))
      → key ≢ j
      → lookup j (assign key value m) ≡ lookup j m
  lookup-assign_ne key j value m h = rw (lookup-assign, text_eq-false key j h)
