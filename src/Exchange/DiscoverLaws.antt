-- ===== src/Exchange/DiscoverLaws.antt =====
-- src/patchharbor/application_exchange.py: the loop with its remembered contexts is the loop without,
-- and what is discovered may be started.
use mathlib.Core.Path.{subst⁻¹}
use patch_harbor.Base.{
  ◌≡◌, refl, sym, ap, inl, inr, Bool, true, false, Option, none, some, List, [], ◌∷◌, arith,
  if◌then◌else◌, Result, ok, err, ◌>>=◌, Result-cases, Bool-cases, lookup, insert, lookup-insert,
  option_eq,
}
use patch_harbor.Models.{RepositoryId, repository_id_eq}
use patch_harbor.ExchangeState.Record.{ExchangePatchSelection, apply_status_eq}
use patch_harbor.Exchange.Artifact.{ExchangeArtifact, is_package}
use patch_harbor.Exchange.Select.{
  RepositoryContext, ExchangeDiscoveryScope, DiscoverError, lost_selection, Contexts, Settings,
  in_scope, is_configured, fits_context, captured_context, context_in,
  context_for_exchange_candidate, evaluate, evaluate_package, matches_loop,
}
use patch_harbor.Exchange.Discover.{first_contexts}

abbrev pub firsts {ℓ ℓ' κ} : {E : Type κ} {A : Type ℓ} {B : Type ℓ'} → Result E (A × B) → Result E A
firsts (ok (a, b)) = ok a
firsts (err e) = err e

module _ (capture : RepositoryId → Result DiscoverError (Option RepositoryContext))
    (settings : Settings) (scope : ExchangeDiscoveryScope) where
  -- The context of a repository, captured anew each time.
  unfoldable pub context_now : RepositoryId → Result DiscoverError (Option RepositoryContext)
  context_now repo_id = elim scope.repository_context [
    | some c ↦ ok (in_scope repo_id c)
    | none ↦ capture repo_id
  ]

  unfoldable pub is_eligible :
      ExchangeArtifact → Option ExchangePatchSelection → Result DiscoverError Bool
  unfolding context_now
  is_eligible a none = err lost_selection
  is_eligible a (some s) =
      if is_configured settings a s
      then (do c ← context_now s.repo_id; ok (fits_context scope.allow_failed_retry a s c))
      else ok false

  -- The eligible packages, each tested by itself.
  unfoldable pub eligible : List ExchangeArtifact → Result DiscoverError (List ExchangeArtifact)
  unfolding is_eligible
  eligible [] = ok []
  eligible (a ∷ artifacts) = elim (is_package a.kind) [
    | false ↦ eligible artifacts
    | true ↦ do
      is_match ← is_eligible a a.selection
      rest ← eligible artifacts
      ok (if is_match then a ∷ rest else rest)
  ]

  -- What is remembered is what a capture gives.
  abbrev IsRemembered : Contexts → Type 0
  IsRemembered contexts =
      (i : RepositoryId) (c : Option RepositoryContext)
      → lookup i contexts ≡ some c
      → capture i ≡ ok c

  abbrev IsCurrent : Contexts → Type 0
  IsCurrent contexts = (scope.repository_context ≡ none) → IsRemembered contexts

  IsRemembered-insert :
      (i : RepositoryId) (c : Option RepositoryContext) (contexts : Contexts)
      → capture i ≡ ok c
      → IsRemembered contexts
      → IsRemembered (insert i c contexts)
  IsRemembered-insert i c contexts is h j d found =
      ground (arith, lookup-insert j i c contexts, h j d, is, found)

  -- A step that remembers contexts and one that does not have the same answer, or the same error.
  abbrev Alike :
      {B : Type 0} → Result DiscoverError (B × Contexts) → Result DiscoverError B → Type 0
  Alike (ok (b, contexts)) y = (y ≡ ok b) × IsCurrent contexts
  Alike (err e) y = y ≡ err e

  Alike-bind :
      {A B : Type 0} (x : Result DiscoverError (A × Contexts)) (y : Result DiscoverError A)
      (f : A × Contexts → Result DiscoverError (B × Contexts)) (g : A → Result DiscoverError B)
      → Alike x y
      → ((a : A) (contexts : Contexts) → IsCurrent contexts → Alike (f (a, contexts)) (g a))
      → Alike (x >>= f) (y >>= g)
  Alike-bind (ok (a, contexts)) y f g h next =
      subst⁻¹ (λ z. Alike (f (a, contexts)) (z >>= g)) h.0 (next a contexts h.1)
  Alike-bind (err e) y f g h next = rw h refl

  captured-Alike :
      (i : RepositoryId) (contexts : Contexts) (o : Option (Option RepositoryContext))
      → lookup i contexts ≡ o
      → IsRemembered contexts
      → Alike (captured_context capture i contexts o) (capture i)
  unfolding captured_context
  captured-Alike i contexts (some c) found h = (h i c found, λ _. h)
  captured-Alike i contexts none found h = elim (Result-cases (capture i)) [
    | inl (c, is) ↦ rw is (refl, λ _. IsRemembered-insert i c contexts is h)
    | inr (e, is) ↦ rw is refl
  ]

  context-Alike :
      (i : RepositoryId) (contexts : Contexts) (o : Option RepositoryContext)
      → scope.repository_context ≡ o
      → IsCurrent contexts
      → Alike
          (context_in capture o i contexts)
          (elim o [ some c ↦ ok (in_scope i c) | none ↦ capture i ])
  unfolding context_in
  context-Alike i contexts (some c) is h = (refl, h)
  context-Alike i contexts none is h = captured-Alike i contexts (lookup i contexts) refl (h is)

  evaluate-Alike :
      (a : ExchangeArtifact) (o : Option ExchangePatchSelection) (contexts : Contexts)
      → IsCurrent contexts
      → Alike (evaluate_package capture settings scope a o contexts) (is_eligible a o)
  unfolding evaluate_package evaluate is_eligible context_for_exchange_candidate context_now
  evaluate-Alike a none contexts h = refl
  evaluate-Alike a (some s) contexts h = elim (Bool-cases (is_configured settings a s)) [
    | inl configured ↦
        rw (configured, evaluate)
          (Alike-bind (context_in capture scope.repository_context s.repo_id contexts) _ _ _
            (context-Alike s.repo_id contexts scope.repository_context refl h)
            λ c after current. (refl, current))
    | inr elsewhere ↦ rw (elsewhere, evaluate) (refl, h)
  ]

  matches_loop-Alike :
      (artifacts : List ExchangeArtifact) (contexts : Contexts)
      → IsCurrent contexts
      → Alike (matches_loop capture settings scope artifacts contexts) (eligible artifacts)
  unfolding matches_loop eligible
  matches_loop-Alike [] contexts h = (refl, h)
  matches_loop-Alike (a ∷ artifacts) contexts h =
      elim (is_package a.kind)
        as (λ b.
          Alike
            (elim b [
              | false ↦ matches_loop capture settings scope artifacts contexts
              | true ↦ evaluate_package capture settings scope a a.selection contexts >>= λ o.
                  matches_loop capture settings scope artifacts o.1 >>= λ o'.
                  ok (if o.0 then a ∷ o'.0 else o'.0, o'.1)
            ])
            (elim b [
              | false ↦ eligible artifacts
              | true ↦ is_eligible a a.selection >>= λ is_match.
                  eligible artifacts >>= λ rest. ok (if is_match then a ∷ rest else rest)
            ])) [
              | false ↦ matches_loop-Alike artifacts contexts h
              | true ↦
                  Alike-bind (evaluate_package capture settings scope a a.selection contexts) _ _ _
                    (evaluate-Alike a a.selection contexts h)
                    λ is_match after current.
                      Alike-bind (matches_loop capture settings scope artifacts after) _ _ _
                        (matches_loop-Alike artifacts after current)
                        λ rest last current'. (refl, current')
            ]

  first_contexts-IsCurrent : IsCurrent (first_contexts scope.repository_context)
  unfolding lookup
  first_contexts-IsCurrent none_scoped i c found =
      cc (ap (λ o. lookup i (first_contexts o)) none_scoped)

  Alike-firsts :
      {B : Type 0} (x : Result DiscoverError (B × Contexts)) (y : Result DiscoverError B)
      → Alike x y
      → firsts x ≡ y
  Alike-firsts (ok (b, contexts)) y h = sym h.0
  Alike-firsts (err e) y h = sym h

  -- The loop over the artifacts, which captures the context of a repository once and remembers it,
  -- finds the same packages, or raises the same error, as testing each artifact by itself with a
  -- context of its own.
  pub matches_loop-eligible :
      (artifacts : List ExchangeArtifact)
      → firsts
          (matches_loop capture settings scope artifacts (first_contexts scope.repository_context))
        ≡ eligible artifacts
  matches_loop-eligible artifacts = Alike-firsts _ _ (
      matches_loop-Alike artifacts (first_contexts scope.repository_context)
        first_contexts-IsCurrent)
