-- ===== src/Base/Lists.antt =====
-- Lists measured by native numbers, predicates over all items, and the code points of a text.
use patch_harbor.Base.Tests.{ltb, ◌=ℕ◌}
use Prim.Native.Nat.{ℕ, zero, suc, ◌+◌, ◌-◌, min}
use Prim.Native.Char.{code}
use Prim.Native.String.{String}
use mathlib.Core.Path.{◌≡◌, refl, subst⁻¹}
use mathlib.Core.Logic.{◌⊎◌, inl, inr}
use mathlib.Core.Bool.{Bool, true, false, ◌&&◌, ◌||◌}
use mathlib.Core.List.{List, [], ◌∷◌, ◌++◌}
use mathlib.Core.Option.{Option, none, some}
use native.Mathlib.Omega.{arith}

module _ {ℓ} {A : Type ℓ} where
  abbrev pub length : List A → ℕ
  length [] = 0
  length (x ∷ xs) = suc (length xs)

  abbrev pub take : ℕ → List A → List A
  take zero xs = []
  take (suc n) [] = []
  take (suc n) (x ∷ xs) = x ∷ take n xs

  abbrev pub drop : ℕ → List A → List A
  drop zero xs = xs
  drop (suc n) [] = []
  drop (suc n) (x ∷ xs) = drop n xs

  abbrev pub all : (A → Bool) → List A → Bool
  all p [] = true
  all p (x ∷ xs) = p x && all p xs

  abbrev pub All {κ} : (A → Type κ) → List A → Type κ
  All P [] = Unit
  All P (x ∷ xs) = P x × All P xs

  pub All-append {κ} : (P : A → Type κ) (xs ys : List A) → All P xs → All P ys → All P (xs ++ ys)
  All-append P [] ys h k = k
  All-append P (x ∷ xs) ys h k = (h.0, All-append P xs ys h.1 k)

  pub length-append : (xs ys : List A) → length (xs ++ ys) ≡ length xs + length ys
  length-append [] ys = omega arith
  length-append (x ∷ xs) ys = omega (arith, length-append xs ys)

  pub length-take : (n : ℕ) (xs : List A) → length (take n xs) ≡ min n (length xs)
  length-take zero xs = omega arith
  length-take (suc n) [] = omega arith
  length-take (suc n) (x ∷ xs) = omega (arith, length-take n xs)

  pub length-drop : (n : ℕ) (xs : List A) → length (drop n xs) ≡ length xs - n
  length-drop zero xs = omega arith
  length-drop (suc n) [] = omega arith
  length-drop (suc n) (x ∷ xs) = omega (arith, length-drop n xs)

module _ {A : Type 0} where
  -- `a in xs`, as a path to one of the items.
  abbrev pub IsOneOf : A → List A → Type 0
  IsOneOf a [] = ⊥
  IsOneOf a (x ∷ xs) = (a ≡ x) ⊎ IsOneOf a xs

  pub All-IsOneOf {κ} : (P : A → Type κ) (xs : List A) → ((a : A) → IsOneOf a xs → P a) → All P xs
  All-IsOneOf P [] h = tt
  All-IsOneOf P (x ∷ xs) h = (h x (inl refl), All-IsOneOf P xs (λ a m. h a (inr m)))

  pub All-at {κ} : (P : A → Type κ) (xs : List A) (a : A) → All P xs → IsOneOf a xs → P a
  All-at P [] a h m = absurd m
  All-at P (x ∷ xs) a h (inl e) = subst⁻¹ P e h.0
  All-at P (x ∷ xs) a h (inr m) = All-at P xs a h.1 m

-- The code points of a text.
abbrev pub codes : String → List ℕ
codes String.[] = []
codes (String.◌∷◌ c s) = code c ∷ codes s

-- The order of `bytes`. UTF-8 orders texts as their code points do.
unfoldable pub before_or_equal : List ℕ → List ℕ → Bool
before_or_equal [] ys = true
before_or_equal (x ∷ xs) [] = false
before_or_equal (x ∷ xs) (y ∷ ys) = let rest = before_or_equal xs ys in ltb x y || x =ℕ y && rest

abbrev pub is_some {ℓ} : {A : Type ℓ} → Option A → Bool
is_some none = false
is_some (some a) = true
