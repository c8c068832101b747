-- ===== src/Exchange/Newest.antt =====
-- src/patchharbor/application_exchange.py: the order of the keys, and the artifact that `min` gives.
use mathlib.Core.Path.{subst⁻¹}
use patch_harbor.Base.{
  ℕ, String, ◌≡◌, refl, ap, inl, inr, Bool, true, false, ◌&&◌, ◌||◌, List, [], ◌∷◌, arith, ltb,
  ◌=ℕ◌, codes, before_or_equal, All, if◌then◌else◌, Bool-cases, ◌==◌, string_eq,
}
use patch_harbor.Paths.{name}
use patch_harbor.Exchange.Artifact.{ExchangeArtifact}
use patch_harbor.Exchange.Select.{text_before, key_before, least}

before_or_equal_refl : (xs : List ℕ) → before_or_equal xs xs ≡ true
unfolding before_or_equal
before_or_equal_refl [] = refl
before_or_equal_refl (x ∷ xs) = ground (arith, before_or_equal_refl xs)

pub before_or_equal_total :
    (xs ys : List ℕ) → before_or_equal xs ys ≡ false → before_or_equal ys xs ≡ true
unfolding before_or_equal
before_or_equal_total [] ys h = cc
before_or_equal_total (x ∷ xs) [] h = refl
before_or_equal_total (x ∷ xs) (y ∷ ys) h = ground (arith, before_or_equal_total xs ys)

pub before_or_equal_trans :
    (xs ys zs : List ℕ)
    → before_or_equal xs ys ≡ true
    → before_or_equal ys zs ≡ true
    → before_or_equal xs zs ≡ true
unfolding before_or_equal
before_or_equal_trans [] ys zs h k = refl
before_or_equal_trans (x ∷ xs) [] zs h k = cc
before_or_equal_trans (x ∷ xs) (y ∷ ys) [] h k = cc
before_or_equal_trans (x ∷ xs) (y ∷ ys) (z ∷ zs) h k =
    ground (arith, before_or_equal_trans xs ys zs)

text_before_irrefl : (s : String) → text_before s s ≡ false
unfolding text_before
text_before_irrefl s = ground (arith, before_or_equal_refl (codes s))

-- `s` before `t` is `t` not before or equal to `s`, so one of the orders is contradicted.
text_before_trans :
    (s t u : String) → text_before s t ≡ true → text_before t u ≡ true → text_before s u ≡ true
unfolding text_before
text_before_trans s t u h k = ground (
  arith,
  before_or_equal_total (codes t) (codes s),
  before_or_equal_trans (codes u) (codes s) (codes t),
  h,
  k,
)

-- One level of the keys: before by the first part, or equal there and before by the rest.
by_text : String → String → Bool → Bool
by_text s t rest = text_before s t || s == t && rest

by_text_trans :
    (s t u : String) (p q r : Bool)
    → (p ≡ true → q ≡ true → r ≡ true)
    → by_text s t p ≡ true
    → by_text t u q ≡ true
    → by_text s u r ≡ true
unfolding by_text
by_text_trans s t u p q r rest h k = ground (arith, text_before_trans s t u, rest, h, k)

by_text_irrefl : (s : String) (p : Bool) → p ≡ false → by_text s s p ≡ false
unfolding by_text
by_text_irrefl s p h = ground (arith, text_before_irrefl s, h)

module _ (normalize : String → String) where
  key_before_irrefl : (a : ExchangeArtifact) → key_before normalize a a ≡ false
  unfolding key_before by_text
  key_before_irrefl a = ground (
    arith,
    by_text_irrefl (normalize (name a.path)) _
        (by_text_irrefl (name a.path) (text_before a.path a.path) (text_before_irrefl a.path)),
  )

  by_names : ExchangeArtifact → ExchangeArtifact → Bool
  by_names a b =
      by_text (normalize (name a.path)) (normalize (name b.path))
        (by_text (name a.path) (name b.path) (text_before a.path b.path))

  by_names_trans :
      (a b c : ExchangeArtifact) → by_names a b ≡ true → by_names b c ≡ true → by_names a c ≡ true
  unfolding by_names
  by_names_trans a b c =
      by_text_trans (normalize (name a.path)) (normalize (name b.path)) (normalize (name c.path)) _
        _ _
        (by_text_trans (name a.path) (name b.path) (name c.path) _ _ _
          (text_before_trans a.path b.path c.path))

  key_before-by_names :
      (a b : ExchangeArtifact)
      → key_before normalize a b
        ≡ (ltb b.mtime_ns a.mtime_ns || a.mtime_ns =ℕ b.mtime_ns && by_names a b)
  unfolding key_before by_names by_text
  key_before-by_names a b = refl

  key_before_trans :
      (a b c : ExchangeArtifact)
      → key_before normalize a b ≡ true
      → key_before normalize b c ≡ true
      → key_before normalize a c ≡ true
  key_before_trans a b c h k = ground (
    arith,
    key_before-by_names a b,
    key_before-by_names b c,
    key_before-by_names a c,
    by_names_trans a b c,
    h,
    k,
  )

  -- No artifact of the list has a key before that of `a`.
  abbrev pub IsLeast : ExchangeArtifact → List ExchangeArtifact → Type 0
  IsLeast a = All (λ b. key_before normalize b a ≡ false)

  -- A least one stays least for those that it was before.
  still_not_before :
      (a best b : ExchangeArtifact)
      → key_before normalize a best ≡ true
      → key_before normalize b best ≡ false
      → key_before normalize b a ≡ false
  still_not_before a best b h k = ground (arith, key_before_trans b a best, h, k)

  abbrev NotBefore : ExchangeArtifact → ExchangeArtifact → Type 0
  NotBefore a b = key_before normalize b a ≡ false

  least-keeps :
      (b best : ExchangeArtifact) (artifacts : List ExchangeArtifact)
      → NotBefore best b
      → NotBefore (least normalize best artifacts) b
  unfolding least
  least-keeps b best [] h = h
  least-keeps b best (a ∷ artifacts) h = elim (Bool-cases (key_before normalize a best)) [
    | inl before ↦
        rw (before, least) (least-keeps b a artifacts (still_not_before a best b before h))
    | inr other ↦ rw (other, least) (least-keeps b best artifacts h)
  ]

  least-IsLeast :
      (best : ExchangeArtifact) (artifacts : List ExchangeArtifact)
      → IsLeast (least normalize best artifacts) artifacts
  unfolding least
  least-IsLeast best [] = tt
  least-IsLeast best (a ∷ artifacts) = elim (Bool-cases (key_before normalize a best)) [
    | inl before ↦
        subst⁻¹ (λ m. IsLeast m (a ∷ artifacts))
          (ap (λ b. least normalize (if b then a else best) artifacts) before)
          (least-keeps a a artifacts (key_before_irrefl a), least-IsLeast a artifacts)
    | inr other ↦
        subst⁻¹ (λ m. IsLeast m (a ∷ artifacts))
          (ap (λ b. least normalize (if b then a else best) artifacts) other)
          (least-keeps a best artifacts other, least-IsLeast best artifacts)
  ]

  -- The first of a list is not before the one that is taken either.
  pub least-IsLeast_all :
      (a : ExchangeArtifact) (artifacts : List ExchangeArtifact)
      → IsLeast (least normalize a artifacts) (a ∷ artifacts)
  least-IsLeast_all a artifacts =
      (least-keeps a a artifacts (key_before_irrefl a), least-IsLeast a artifacts)

  -- What holds of all holds of the one that is taken.
  pub least-All {κ} :
      (P : ExchangeArtifact → Type κ) (a : ExchangeArtifact) (artifacts : List ExchangeArtifact)
      → All P (a ∷ artifacts)
      → P (least normalize a artifacts)
  unfolding least
  least-All P a [] h = h.0
  least-All P a (b ∷ artifacts) h = elim (Bool-cases (key_before normalize b a)) [
    | inl before ↦ rw (before, least) (least-All P b artifacts h.1)
    | inr other ↦ rw (other, least) (least-All P a artifacts (h.0, h.1.1))
  ]
