-- ===== src/Base/Dict.antt =====
-- A `dict` in the order of insertion, no key twice.
use mathlib.Core.Path.{◌≡◌, refl}
use mathlib.Core.Option
use mathlib.Core.Option.{Option, none, some}
use mathlib.Core.List.{List, [], ◌∷◌}
use native.Mathlib.Omega.{arith}
use patch_harbor.Base.Tests.{if◌then◌else◌}
use patch_harbor.Base.Equality.{Eq, ◌==◌}

module _ {ℓ κ} {K : Type ℓ} {V : Type κ} ⦃e : Eq K⦄ where
  -- `d.get(k)`
  unfoldable pub lookup : K → List (K × V) → Option V
  lookup k [] = none
  lookup k ((j, v) ∷ d) = if j == k then some v else lookup k d

  -- `d[k] = v`
  unfoldable pub insert : K → V → List (K × V) → List (K × V)
  insert k v [] = (k, v) ∷ []
  insert k v ((j, w) ∷ d) = if j == k then (j, v) ∷ d else (j, w) ∷ insert k v d

  -- A change of the object that the key holds, if it holds one.
  unfoldable pub adjust : K → (V → V) → List (K × V) → List (K × V)
  adjust k f [] = []
  adjust k f ((j, v) ∷ d) = if j == k then (j, f v) ∷ d else (j, v) ∷ adjust k f d

  pub lookup-insert :
      (j k : K) (v : V) (d : List (K × V))
      → lookup j (insert k v d) ≡ (if k == j then some v else lookup j d)
  unfolding lookup insert
  lookup-insert j k v [] = refl
  lookup-insert j k v (_ ∷ d) = ground (arith, lookup-insert j k v d)

  pub lookup-adjust :
      (j k : K) (f : V → V) (d : List (K × V))
      → lookup j (adjust k f d) ≡ (if k == j then Option.map f (lookup j d) else lookup j d)
  unfolding lookup adjust
  lookup-adjust j k f [] = ground arith
  lookup-adjust j k f (_ ∷ d) = ground (arith, lookup-adjust j k f d)
