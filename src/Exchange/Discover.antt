-- ===== src/Exchange/Discover.antt =====
-- src/patchharbor/application_exchange.py: `discover_exchange_patch` from the artifacts that the scans
-- and the maintenance have left.
use patch_harbor.Base.{
  String, Bool, false, ◌&&◌, ◌||◌, is_some, Option, none, some, List, [], ◌∷◌, if◌then◌else◌,
  Result, ok, err, ◌>>=◌, ◌>>◌, require, reraise, ◌==◌, string_eq, option_eq, lookup,
}
use patch_harbor.Models.{ValueError, value_error, RepositoryId, repository_id_eq}
use patch_harbor.ExchangeState.Record.{
  ExchangeApplyStatus, failed, ExchangePatchSelection, apply_status_eq, selection_eq,
}
use patch_harbor.Package.Manifest.{from_manifest}
use patch_harbor.Package.Resolve.{ValidatedPatchPackage}
use patch_harbor.Exchange.Artifact.{ExchangeArtifact, is_selection}
use patch_harbor.Zip.Policy.{default_resource_policy}
use patch_harbor.Exchange.Classify.{Readers}
use patch_harbor.Exchange.Files.{ExchangeError, FileView}
use patch_harbor.Exchange.Reopen.{materialize_exchange_patch}
use patch_harbor.Exchange.Select.{
  RepositoryContext, ExchangeDiscoveryScope, DiscoverError, lost_selection, discovery_changed,
  value_raised, no_eligible_patch, no_matching_patch, missing_settings, Contexts, Settings,
  manifest_matches_context, matches_loop, least,
}

-- The fields of `DiscoveredExchangePatch` that its tests read and its methods pass to the ledger.
pub record DiscoveredExchangePatch : Type 0 where
  pub artifact : ExchangeArtifact
  pub validated_package : ValidatedPatchPackage
  pub retry_failed : Bool
  pub explicitly_selected : Bool

abbrev expected_status : Bool → Option ExchangeApplyStatus
expected_status retry_failed = if retry_failed then some failed else none

-- The tests of `DiscoveredExchangePatch.__post_init__`
unfoldable pub patch_fits : DiscoveredExchangePatch → Bool
unfolding from_manifest is_selection apply_status_eq option_eq
patch_fits p =
    is_some p.artifact.selection
    && (p.explicitly_selected || p.artifact.apply_status == expected_status p.retry_failed)
    && is_selection p.artifact.selection (from_manifest p.validated_package.manifest)

unfoldable pub discovered_exchange_patch :
    DiscoveredExchangePatch → Result ValueError DiscoveredExchangePatch
unfolding patch_fits
discovered_exchange_patch p = if patch_fits p then ok p else err value_error

-- The last test on the context
unfoldable pub matches_captured : ValidatedPatchPackage → Option (Option RepositoryContext) → Bool
unfolding manifest_matches_context
matches_captured package_found (some (some c)) = manifest_matches_context package_found.manifest c
matches_captured package_found _ = false

unfoldable pub selected_settings :
    Settings → Option ExchangePatchSelection → Result DiscoverError String
unfolding lookup repository_id_eq
selected_settings settings none = err lost_selection
selected_settings settings (some s) = elim (lookup s.repo_id settings) [
  | some (some directory) ↦ ok directory
  | _ ↦ err missing_settings
]

-- An error of the Exchange directory or of the ledger stays what it is.
abbrev pub raised {ℓ} : {A : Type ℓ} → Result ExchangeError A → Result DiscoverError A
raised (ok a) = ok a
raised (err e) = err (DiscoverError.exchange e)

abbrev none_found : ExchangeDiscoveryScope → DiscoverError
none_found scope = if is_some scope.repository_context then no_matching_patch else no_eligible_patch

-- The contexts that are known before the loop.
abbrev pub first_contexts : Option RepositoryContext → Contexts
first_contexts none = []
first_contexts (some c) = (c.repo_id, some c) ∷ []

module _ (normalize : String → String)
    (capture : RepositoryId → Result DiscoverError (Option RepositoryContext)) (r : Readers)
    (files : String → FileView) (settings : Settings) (scope : ExchangeDiscoveryScope) where
  -- What is done with the selected artifact. `revalidate` is the outcome of the second check of the
  -- registry, the configurations and the watched directories.
  unfoldable pub take_artifact :
      Result DiscoverError (Unit {0})
      → Contexts
      → ExchangeArtifact
      → Result DiscoverError DiscoveredExchangePatch
  unfolding materialize_exchange_patch default_resource_policy selected_settings matches_captured
      lookup repository_id_eq discovered_exchange_patch apply_status_eq option_eq
  take_artifact revalidate contexts a = do
    directory ← selected_settings settings a.selection
    package_found ← raised (materialize_exchange_patch files r default_resource_policy a directory)
    revalidate
    require (matches_captured package_found (lookup package_found.manifest.repo_id contexts))
        discovery_changed
    reraise value_raised (
        discovered_exchange_patch (record {
          artifact = a;
          validated_package = package_found;
          retry_failed = a.apply_status == some failed;
          explicitly_selected = false;
        }))

  unfoldable pub take_least :
      Result DiscoverError (Unit {0})
      → Contexts
      → List ExchangeArtifact
      → Result DiscoverError DiscoveredExchangePatch
  unfolding take_artifact least
  take_least revalidate contexts [] = err (none_found scope)
  take_least revalidate contexts (a ∷ artifacts) =
      take_artifact revalidate contexts (least normalize a artifacts)

  -- `discover_exchange_patch`, on the artifacts; the two outcomes are those of the checks before and
  -- after the selected package is read.
  unfoldable pub discover_exchange_patch :
      Result DiscoverError (Unit {0})
      → Result DiscoverError (Unit {0})
      → List ExchangeArtifact
      → Result DiscoverError DiscoveredExchangePatch
  unfolding matches_loop take_least
  discover_exchange_patch first_check second_check artifacts = do
    (matches, contexts) ←
        matches_loop capture settings scope artifacts (first_contexts scope.repository_context)
    first_check
    take_least second_check contexts matches
