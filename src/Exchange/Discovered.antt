-- ===== src/Exchange/Discovered.antt =====
-- src/patchharbor/application_exchange.py: what a discovery returns.
use mathlib.Core.Path.{subst⁻¹}
use patch_harbor.Base.{
  All-IsOneOf, IsOneOf, String, ◌≡◌, refl, sym, ap, ◌∙◌, inl, inr, Bool, true, false, Option, none,
  some, List, [], ◌∷◌, arith, All, if◌then◌else◌, Result, ok, err, require, Answers, Answers-answer,
  Answers-bind, Answers-after, Answers-then, Answers-implies, Answers-reraise, Result-cases,
  Bool-cases, ◌==◌, lookup, option_eq,
}
use patch_harbor.Models.{value_error, RepositoryId, repository_id_eq}
use patch_harbor.ExchangeState.Record.{
  ExchangeApplyStatus, failed, ExchangePatchSelection, apply_status_eq, selection_eq,
}
use patch_harbor.ExchangeState.Attempt.{admits_start}
use patch_harbor.Package.Manifest.{from_manifest}
use patch_harbor.Package.Resolve.{ValidatedPatchPackage}
use patch_harbor.Exchange.Artifact.{ExchangeArtifact, is_package, is_selection}
use patch_harbor.Exchange.Select.{
  RepositoryContext, ExchangeDiscoveryScope, DiscoverError, discovery_changed, value_raised,
  Contexts, Settings, matches_context, may_start, is_configured, fits_context, matches_loop, least,
}
use patch_harbor.Zip.Policy.{default_resource_policy}
use patch_harbor.Exchange.Classify.{Readers}
use patch_harbor.Exchange.Files.{ExchangeError, FileView}
use patch_harbor.Exchange.Reopen.{materialize_exchange_patch}
use patch_harbor.Exchange.ReopenLaws.{IsMaterialized, materialize_exchange_patch-IsMaterialized}
use patch_harbor.Exchange.Newest.{IsLeast, least-IsLeast_all, least-All}
use patch_harbor.Exchange.Discover.{
  DiscoveredExchangePatch, patch_fits, discovered_exchange_patch, selected_settings, raised,
  matches_captured, first_contexts, take_artifact, take_least, discover_exchange_patch,
}
use patch_harbor.Exchange.DiscoverLaws.{
  context_now, is_eligible, eligible, firsts, matches_loop-eligible,
}

-- A package in the Exchange directory of its repository, for the state that the repository is in, with a
-- status that does not block it.
pub record IsEligible (capture : RepositoryId → Result DiscoverError (Option RepositoryContext))
    (settings : Settings) (scope : ExchangeDiscoveryScope) (a : ExchangeArtifact) : Type 0 where
  pub package_kind : is_package a.kind ≡ true
  pub selected : ExchangePatchSelection
  pub selection : a.selection ≡ some selected
  pub configured : is_configured settings a selected ≡ true
  pub context : RepositoryContext
  pub current : context_now capture settings scope selected.repo_id ≡ ok (some context)
  pub state : matches_context selected context ≡ true
  pub status : may_start scope.allow_failed_retry a.apply_status ≡ true

pub record IsDiscovered (normalize : String → String)
    (capture : RepositoryId → Result DiscoverError (Option RepositoryContext)) (r : Readers)
    (files : String → FileView) (settings : Settings) (scope : ExchangeDiscoveryScope)
    (artifacts : List ExchangeArtifact) (p : DiscoveredExchangePatch) : Type 0 where
  pub matches : List ExchangeArtifact
  pub found : eligible capture settings scope artifacts ≡ ok matches
  pub one_of : IsOneOf p.artifact artifacts
  pub eligible_one : IsEligible capture settings scope p.artifact
  pub newest : IsLeast normalize p.artifact matches
  pub directory : String
  pub materialized :
      IsMaterialized files r default_resource_policy p.artifact directory p.validated_package
  pub binding :
      is_selection p.artifact.selection (from_manifest p.validated_package.manifest) ≡ true
  pub admitted : admits_start p.retry_failed p.explicitly_selected p.artifact.apply_status ≡ true
  pub automatic : p.explicitly_selected ≡ false

module _ (capture : RepositoryId → Result DiscoverError (Option RepositoryContext))
    (settings : Settings) (scope : ExchangeDiscoveryScope) where
  abbrev One : ExchangeArtifact → Type 0
  One = IsEligible capture settings scope

  fits-IsEligible :
      (a : ExchangeArtifact) (s : ExchangePatchSelection) (c : Option RepositoryContext)
      → is_package a.kind ≡ true
      → a.selection ≡ some s
      → is_configured settings a s ≡ true
      → context_now capture settings scope s.repo_id ≡ ok c
      → fits_context scope.allow_failed_retry a s c ≡ true
      → One a
  unfolding fits_context
  fits-IsEligible a s none kind selection configured current fits = cc
  fits-IsEligible a s (some c) kind selection configured current fits = record {
    package_kind = kind;
    selected = s;
    selection = selection;
    configured = configured;
    context = c;
    current = current;
    state = ground (arith, fits);
    status = ground (arith, fits);
  }

  is_eligible-IsEligible :
      (a : ExchangeArtifact) (o : Option ExchangePatchSelection) (b : Bool)
      → is_package a.kind ≡ true
      → a.selection ≡ o
      → is_eligible capture settings scope a o ≡ ok b
      → b ≡ true
      → One a
  unfolding is_eligible
  is_eligible-IsEligible a none b kind selection is matched = cc
  is_eligible-IsEligible a (some s) b kind selection is matched =
      elim (Bool-cases (is_configured settings a s)) [
        | inr elsewhere ↦ cc (rw (elsewhere, is_eligible) at is)
        | inl configured ↦ elim (Result-cases (context_now capture settings scope s.repo_id)) [
          | inr (e, fails) ↦ cc (rw (configured, fails, is_eligible) at is)
          | inl (c, current) ↦
              fits-IsEligible a s c kind selection configured current
                (cc (rw (configured, current, is_eligible) at is))
        ]
      ]

  eligible_cons :
      (a : ExchangeArtifact) (b : Bool) (rest : List ExchangeArtifact)
      → (b ≡ true → One a)
      → All One rest
      → All One (if b then a ∷ rest else rest)
  eligible_cons a true rest one h = (one refl, h)
  eligible_cons a false rest one h = h

  pub eligible-IsEligible :
      (artifacts : List ExchangeArtifact)
      → Answers (All One) (eligible capture settings scope artifacts)
  unfolding eligible
  eligible-IsEligible [] = tt
  eligible-IsEligible (a ∷ artifacts) = elim (Bool-cases (is_package a.kind)) [
    | inr other ↦ rw (other, eligible) (eligible-IsEligible artifacts)
    | inl kind ↦
        rw (kind, eligible)
          (Answers-after (All One) (is_eligible capture settings scope a a.selection) _ λ b is.
            Answers-then (All One) (All One) (eligible capture settings scope artifacts) _
              (eligible-IsEligible artifacts)
              λ rest h.
                eligible_cons a b rest (is_eligible-IsEligible a a.selection b kind refl is) h)
  ]

  keep_cons :
      (P : ExchangeArtifact → Type 0) (a : ExchangeArtifact) (b : Bool)
      (rest : List ExchangeArtifact)
      → P a
      → All P rest
      → All P (if b then a ∷ rest else rest)
  keep_cons P a true rest h k = (h, k)
  keep_cons P a false rest h k = k

  -- What holds of all artifacts holds of the eligible ones.
  eligible-All :
      (P : ExchangeArtifact → Type 0) (artifacts : List ExchangeArtifact)
      → All P artifacts
      → Answers (All P) (eligible capture settings scope artifacts)
  unfolding eligible
  eligible-All P [] h = tt
  eligible-All P (a ∷ artifacts) h = elim (Bool-cases (is_package a.kind)) [
    | inr other ↦ rw (other, eligible) (eligible-All P artifacts h.1)
    | inl kind ↦
        rw (kind, eligible)
          (Answers-bind (All P) (is_eligible capture settings scope a a.selection) _ λ b.
            Answers-then (All P) (All P) (eligible capture settings scope artifacts) _
              (eligible-All P artifacts h.1) λ rest k. keep_cons P a b rest h.0 k)
  ]

  -- A package without a status, or with the failed one, may be started by its discovery.
  may_start-admits_start :
      (o : Option ExchangeApplyStatus)
      → may_start scope.allow_failed_retry o ≡ true
      → admits_start (o == some failed) false o ≡ true
  unfolding may_start admits_start
  may_start-admits_start o h = ground (arith, h)

Answers-raised :
    {A : Type 0} (P : A → Type 0) (m : Result ExchangeError A) → Answers P m → Answers P (raised m)
Answers-raised P (ok a) h = h
Answers-raised P (err e) h = tt

patch_fits-binding :
    (p : DiscoveredExchangePatch)
    → patch_fits p ≡ true
    → is_selection p.artifact.selection (from_manifest p.validated_package.manifest) ≡ true
unfolding patch_fits
patch_fits-binding p h = ground (arith, h)

abbrev Constructed : DiscoveredExchangePatch → Bool → Type 0
Constructed p b =
    Answers (λ q. (q ≡ p) × (patch_fits p ≡ true)) (if b then ok p else err value_error)

constructed :
    (p : DiscoveredExchangePatch)
    → Answers (λ q. (q ≡ p) × (patch_fits p ≡ true)) (discovered_exchange_patch p)
unfolding discovered_exchange_patch
constructed p = elim (Bool-cases (patch_fits p)) [
  | inl fits ↦ subst⁻¹ (Constructed p) fits (refl, fits)
  | inr other ↦ subst⁻¹ (Constructed p) other tt
]

module _ (normalize : String → String)
    (capture : RepositoryId → Result DiscoverError (Option RepositoryContext)) (r : Readers)
    (files : String → FileView) (settings : Settings) (scope : ExchangeDiscoveryScope) where
  abbrev Found : List ExchangeArtifact → DiscoveredExchangePatch → Type 0
  Found = IsDiscovered normalize capture r files settings scope

  -- The patch of an artifact and its package.
  abbrev patch_of : ExchangeArtifact → ValidatedPatchPackage → DiscoveredExchangePatch
  patch_of a package_found = record {
    artifact = a;
    validated_package = package_found;
    retry_failed = a.apply_status == some failed;
    explicitly_selected = false;
  }

  take_artifact-Found :
      (artifacts matches : List ExchangeArtifact) (revalidate : Result DiscoverError (Unit {0}))
      (contexts : Contexts) (a : ExchangeArtifact)
      → eligible capture settings scope artifacts ≡ ok matches
      → IsEligible capture settings scope a
      → IsOneOf a artifacts
      → IsLeast normalize a matches
      → Answers
          (Found artifacts)
          (take_artifact normalize capture r files settings scope revalidate contexts a)
  unfolding take_artifact
  take_artifact-Found artifacts matches revalidate contexts a found one one_of newest =
      Answers-bind (Found artifacts) (selected_settings settings a.selection) _ λ directory.
        Answers-then (IsMaterialized files r default_resource_policy a directory) (Found artifacts)
          (raised (materialize_exchange_patch files r default_resource_policy a directory)) _
          (Answers-raised (IsMaterialized files r default_resource_policy a directory)
            (materialize_exchange_patch files r default_resource_policy a directory)
            (materialize_exchange_patch-IsMaterialized files directory r default_resource_policy a))
          λ package_found is. Answers-bind (Found artifacts) revalidate _ λ _.
            Answers-bind (Found artifacts)
              (require
                (matches_captured package_found (lookup package_found.manifest.repo_id contexts))
                discovery_changed)
              _
              λ _.
                Answers-reraise (Found artifacts) value_raised
                  (discovered_exchange_patch (patch_of a package_found))
                  (Answers-implies _ (Found artifacts) _ (constructed (patch_of a package_found))
                    λ q h. subst⁻¹ (Found artifacts) h.0 (record {
                      matches = matches;
                      found = found;
                      eligible_one = one;
                      one_of = one_of;
                      newest = newest;
                      directory = directory;
                      materialized = is;
                      binding = patch_fits-binding (patch_of a package_found) h.1;
                      admitted =
                          may_start-admits_start capture settings scope a.apply_status one.status;
                      automatic = refl;
                    }))

  take_least-Found :
      (artifacts matches : List ExchangeArtifact) (revalidate : Result DiscoverError (Unit {0}))
      (contexts : Contexts)
      → eligible capture settings scope artifacts ≡ ok matches
      → All (IsEligible capture settings scope) matches
      → All (λ a. IsOneOf a artifacts) matches
      → Answers
          (Found artifacts)
          (take_least normalize capture r files settings scope revalidate contexts matches)
  unfolding take_least
  take_least-Found artifacts [] revalidate contexts found every members = tt
  take_least-Found artifacts (a ∷ matches) revalidate contexts found every members =
      take_artifact-Found artifacts (a ∷ matches) revalidate contexts (least normalize a matches)
        found (least-All normalize (IsEligible capture settings scope) a matches every)
        (least-All normalize (λ b. IsOneOf b artifacts) a matches members)
        (least-IsLeast_all normalize a matches)

  pub discover_exchange_patch-IsDiscovered :
      (first_check second_check : Result DiscoverError (Unit {0}))
      (artifacts : List ExchangeArtifact)
      → Answers (Found artifacts) (
          discover_exchange_patch normalize capture r files settings scope first_check second_check
            artifacts)
  unfolding discover_exchange_patch
  discover_exchange_patch-IsDiscovered first_check second_check artifacts =
      Answers-after (Found artifacts)
        (matches_loop capture settings scope artifacts (first_contexts scope.repository_context)) _
        λ o is.
          let found = sym (matches_loop-eligible capture settings scope artifacts) ∙ ap firsts is in
          Answers-bind (Found artifacts) first_check _ λ _.
            take_least-Found artifacts o.0 second_check o.1 found
              (Answers-answer _ (eligible capture settings scope artifacts) o.0
                (eligible-IsEligible capture settings scope artifacts) found)
              (Answers-answer _ (eligible capture settings scope artifacts) o.0
                (eligible-All capture settings scope (λ a. IsOneOf a artifacts) artifacts
                  (All-IsOneOf (λ a. IsOneOf a artifacts) artifacts λ a m. m))
                found)
