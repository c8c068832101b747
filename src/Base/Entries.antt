-- ===== src/Base/Entries.antt =====
-- Predicates over the entries of a `dict`, kept by its operations.
use mathlib.Core.Logic.{◌≢◌}
use mathlib.Core.Path.{◌≡◌, refl, subst}
use mathlib.Core.Logic.{◌⊎◌, inl, inr}
use mathlib.Core.Bool.{Bool, true, false}
use mathlib.Core.Option
use mathlib.Core.Option.{Option, none, some}
use mathlib.Core.List.{List, [], ◌∷◌}
use native.Mathlib.Omega.{arith}
use patch_harbor.Base.Tests.{if◌then◌else◌}
use patch_harbor.Base.Equality.{Eq, ◌==◌}
use patch_harbor.Base.Dict.{lookup, insert, adjust, lookup-insert, lookup-adjust}

module _ {ℓ κ} {K : Type ℓ} {V : Type κ} where
  abbrev pub On {ι} : (K → V → Type ι) → List (K × V) → Type ι
  On P [] = Unit
  On P ((k, v) ∷ d) = P k v × On P d

  pub On-implies {ι ι'} :
      (P : K → V → Type ι) (Q : K → V → Type ι')
      → ((k : K) (v : V) → P k v → Q k v)
      → (d : List (K × V)) → On P d
      → On Q d
  On-implies P Q f [] h = tt
  On-implies P Q f ((k, v) ∷ d) h = (f k v h.0, On-implies P Q f d h.1)

  pub On-both {ι ι'} :
      (P : K → V → Type ι) (Q : K → V → Type ι') (d : List (K × V))
      → On P d
      → On Q d
      → On (λ k v. P k v × Q k v) d
  On-both P Q [] h q = tt
  On-both P Q ((k, v) ∷ d) h q = ((h.0, q.0), On-both P Q d h.1 q.1)

module _ {ℓ} {K : Type ℓ} ⦃e : Eq K⦄ where
  pub same-key : (j k : K) → j == k ≡ true → j ≡ k
  same-key j k h = ground arith

  pub same-key_refl : (k : K) → k == k ≡ true
  same-key_refl k = ground arith

  -- The tests on values that are equal, or are not.
  pub equal_test : (j k : K) → j ≡ k → j == k ≡ true
  equal_test j k h = ground (arith, same-key_refl j, h)

  pub unequal_test : (j k : K) → j ≢ k → j == k ≡ false
  unequal_test j k h = ground (arith, same-key j k, h)

module _ {ℓ κ} {K : Type ℓ} {V : Type κ} ⦃e : Eq K⦄ where
  -- No key twice.
  abbrev pub IsUnique : List (K × V) → Type κ
  IsUnique [] = Unit
  IsUnique ((k, v) ∷ d) = (lookup k d ≡ none) × IsUnique d

  pub lookup-cons :
      (j k : K) (w v : V) (d : List (K × V))
      → lookup k ((j, w) ∷ d) ≡ some v
      → ((j ≡ k) × (w ≡ v)) ⊎ (lookup k d ≡ some v)
  unfolding lookup
  lookup-cons j k w v d h = ground arith

  pub On-insert {ι} :
      (P : K → V → Type ι) (k : K) (v : V) (d : List (K × V))
      → ((j : K) → j ≡ k → P j v)
      → On P d
      → On P (insert k v d)
  unfolding insert
  On-insert P k v [] p h = (p k refl, tt)
  On-insert P k v ((j, w) ∷ d) p h = split (j == k) (same-key j k) (On-insert P k v d p h.1)
    where
      split :
          (b : Bool)
          → (b ≡ true → j ≡ k)
          → On P (insert k v d)
          → On P (if b then (j, v) ∷ d else (j, w) ∷ insert k v d)
      split true same rest = (p j (same refl), h.1)
      split false same rest = (h.0, rest)

  pub On-adjust {ι} :
      (P Q : K → V → Type ι) (k : K) (f : V → V)
      → ((j : K) (v : V) → P j v → Q j v)
      → ((j : K) → j ≡ k → (v : V) → P j v → Q j (f v))
      → (d : List (K × V)) → On P d
      → On Q (adjust k f d)
  unfolding adjust
  On-adjust P Q k f other moved [] h = tt
  On-adjust P Q k f other moved ((j, w) ∷ d) h =
      split (j == k) (same-key j k) (On-adjust P Q k f other moved d h.1)
    where
      split :
          (b : Bool)
          → (b ≡ true → j ≡ k)
          → On Q (adjust k f d)
          → On Q (if b then (j, f w) ∷ d else (j, w) ∷ adjust k f d)
      split true same rest = (moved j (same refl) w h.0, On-implies P Q other d h.1)
      split false same rest = (other j w h.0, rest)

  pub On-lookup {ι} :
      (P : K → V → Type ι) (k : K) (v : V) (d : List (K × V)) → On P d → lookup k d ≡ some v → P k v
  unfolding lookup
  On-lookup P k v [] h found = ground arith
  On-lookup P k v ((j, w) ∷ d) h found = elim (lookup-cons j k w v d found) [
    | inl same ↦ subst (λ u. P k u) same.1 (subst (λ i. P i w) same.0 h.0)
    | inr rest ↦ On-lookup P k v d h.1 rest
  ]

  pub IsUnique-insert : (k : K) (v : V) (d : List (K × V)) → IsUnique d → IsUnique (insert k v d)
  unfolding insert lookup
  IsUnique-insert k v [] h = (refl, tt)
  IsUnique-insert k v ((j, w) ∷ d) h =
      split (j == k) (λ differ. absent (lookup-insert j k v d) differ) (IsUnique-insert k v d h.1)
        refl
    where
      absent :
          lookup j (insert k v d) ≡ (if k == j then some v else lookup j d)
          → j == k ≡ false
          → lookup j (insert k v d) ≡ none
      absent found differ = ground (arith, h.0)

      split :
          (b : Bool)
          → (j == k ≡ false → lookup j (insert k v d) ≡ none)
          → IsUnique (insert k v d)
          → j == k ≡ b
          → IsUnique (if b then (j, v) ∷ d else (j, w) ∷ insert k v d)
      split true missing rest b = (h.0, h.1)
      split false missing rest b = (missing b, rest)

  pub IsUnique-adjust :
      (k : K) (f : V → V) (d : List (K × V)) → IsUnique d → IsUnique (adjust k f d)
  unfolding adjust lookup
  IsUnique-adjust k f [] h = tt
  IsUnique-adjust k f ((j, w) ∷ d) h =
      split (j == k) (lookup-adjust j k f d) (IsUnique-adjust k f d h.1)
    where
      split :
          (b : Bool)
          → lookup j (adjust k f d) ≡ (if k == j then Option.map f (lookup j d) else lookup j d)
          → IsUnique (adjust k f d)
          → IsUnique (if b then (j, f w) ∷ d else (j, w) ∷ adjust k f d)
      split true found rest = (h.0, h.1)
      split false found rest = (ground (arith, h.0), rest)

  -- Every entry is what its key holds.
  pub IsUnique-Held : (d : List (K × V)) → IsUnique d → On (λ k v. lookup k d ≡ some v) d
  unfolding lookup
  IsUnique-Held [] h = tt
  IsUnique-Held ((k, v) ∷ d) h = (
    ground (arith, same-key_refl k),
    On-implies (λ j w. lookup j d ≡ some w) _ (λ j w held. ground (arith, held, h.0)) d
        (IsUnique-Held d h.1),
  )
