-- ===== src/Exchange/Select.antt =====
-- src/patchharbor/application_exchange.py: which classified files may be applied, and which one is.
use Prim.Native.String.{String}
use patch_harbor.Base.{
  Bool, true, false, ◌&&◌, ◌||◌, not, is_some, Option, none, some, List, [], ◌∷◌, ltb, ◌=ℕ◌, codes,
  before_or_equal, if◌then◌else◌, Result, ok, err, ◌>>=◌, ◌==◌, string_eq, option_eq, lookup,
  insert,
}
use patch_harbor.Models.{
  RepositoryId, GitObjectId, repository_id_eq, git_object_id_eq, git_object_format_eq,
}
use patch_harbor.Paths.{parent, name}
use patch_harbor.ExchangeState.Record.{
  ExchangeApplyStatus, failed, ExchangePatchSelection, apply_status_eq,
}
use patch_harbor.Registry.Mapping.{RepositoryPath}
use patch_harbor.Package.Manifest.{PatchManifest}
use patch_harbor.Exchange.Artifact.{ExchangeArtifact, is_package}
use patch_harbor.Exchange.Files.{ExchangeError}

pub record RepositoryContext : Type 0 where
  pub repo_id : RepositoryId
  pub repository_path : RepositoryPath
  pub base_commit : GitObjectId
  pub dirty : Bool
  pub state_fingerprint : String
  pub fingerprint_algorithm : String

pub record ExchangeDiscoveryScope : Type 0 where
  pub repository_context : Option RepositoryContext
  pub allow_failed_retry : Bool

-- The errors of a discovery. `no_eligible_patch` is a `NoEligiblePatchError`, `no_matching_patch` the
-- error of a discovery for one repository.
pub data DiscoverError : Type 0 where
  lost_selection context_unavailable discovery_changed value_raised : DiscoverError
  unstable_target cannot_observe target_changed cannot_scan : DiscoverError
  no_eligible_patch no_matching_patch missing_settings : DiscoverError
  exchange : ExchangeError → DiscoverError

-- `ExchangePatchSelection.matches_context`
unfoldable pub matches_context : ExchangePatchSelection → RepositoryContext → Bool
unfolding repository_id_eq git_object_id_eq string_eq
matches_context s c =
    s.repo_id == c.repo_id
    && s.base_commit == c.base_commit
    && s.state_fingerprint == c.state_fingerprint
    && s.fingerprint_algorithm == c.fingerprint_algorithm

-- `_manifest_matches_context`
unfoldable pub manifest_matches_context : PatchManifest → RepositoryContext → Bool
unfolding repository_id_eq git_object_id_eq string_eq
manifest_matches_context m c =
    m.repo_id == c.repo_id
    && m.base_commit == c.base_commit
    && m.fingerprint_algorithm == c.fingerprint_algorithm
    && m.state_fingerprint == c.state_fingerprint

-- The contexts that were captured, `none` for a repository that is not available.
abbrev pub Contexts : Type 0
Contexts = List (RepositoryId × Option RepositoryContext)

-- The configured Exchange directory of each repository in scope.
abbrev pub Settings : Type 0
Settings = List (RepositoryId × Option String)

abbrev pub in_scope : RepositoryId → RepositoryContext → Option RepositoryContext
in_scope repo_id c = if not (repo_id == c.repo_id) then none else some c

-- The replay test: a status blocks, but a failed attempt that may be tried again.
unfoldable pub may_start : Bool → Option ExchangeApplyStatus → Bool
unfolding apply_status_eq
may_start allow_failed_retry status =
    not (is_some status) || allow_failed_retry && status == some failed

unfoldable pub is_configured : Settings → ExchangeArtifact → ExchangePatchSelection → Bool
unfolding lookup repository_id_eq parent option_eq string_eq
is_configured settings a s = elim (lookup s.repo_id settings) [
  | none ↦ false
  | some directory ↦ some (parent a.path) == directory
]

unfoldable pub fits_context :
    Bool → ExchangeArtifact → ExchangePatchSelection → Option RepositoryContext → Bool
unfolding matches_context may_start
fits_context allow_failed_retry a s none = false
fits_context allow_failed_retry a s (some c) =
    matches_context s c && may_start allow_failed_retry a.apply_status

-- `capture_repository_context_for_id`, a parameter; `none` is an unavailable repository.
module _ (capture : RepositoryId → Result DiscoverError (Option RepositoryContext)) where
  unfoldable pub captured_context :
      RepositoryId
      → Contexts
      → Option (Option RepositoryContext)
      → Result DiscoverError (Option RepositoryContext × Contexts)
  unfolding insert
  captured_context repo_id contexts (some c) = ok (c, contexts)
  captured_context repo_id contexts none = do c ← capture repo_id; ok (c, insert repo_id c contexts)

  unfoldable pub context_in :
      Option RepositoryContext
      → RepositoryId
      → Contexts
      → Result DiscoverError (Option RepositoryContext × Contexts)
  unfolding captured_context lookup
  context_in (some c) repo_id contexts = ok (in_scope repo_id c, contexts)
  context_in none repo_id contexts = captured_context repo_id contexts (lookup repo_id contexts)

  -- `_context_for_exchange_candidate`
  unfoldable pub context_for_exchange_candidate :
      ExchangePatchSelection
      → ExchangeDiscoveryScope
      → Contexts
      → Result DiscoverError (Option RepositoryContext × Contexts)
  unfolding context_in
  context_for_exchange_candidate s scope contexts =
      context_in scope.repository_context s.repo_id contexts

  module _ (settings : Settings) (scope : ExchangeDiscoveryScope) where
    -- The tests on one artifact with a selection
    unfoldable pub evaluate :
        ExchangeArtifact
        → ExchangePatchSelection
        → Contexts
        → Result DiscoverError (Bool × Contexts)
    unfolding is_configured context_for_exchange_candidate fits_context
    evaluate a s contexts =
        if is_configured settings a s
        then (do
          (c, after) ← context_for_exchange_candidate s scope contexts
          ok (fits_context scope.allow_failed_retry a s c, after))
        else ok (false, contexts)

    unfoldable pub evaluate_package :
        ExchangeArtifact
        → Option ExchangePatchSelection
        → Contexts
        → Result DiscoverError (Bool × Contexts)
    unfolding evaluate
    evaluate_package a none contexts = err lost_selection
    evaluate_package a (some s) contexts = evaluate a s contexts

    -- The loop of `discover_exchange_patch` over the artifacts
    unfoldable pub matches_loop :
        List ExchangeArtifact → Contexts → Result DiscoverError (List ExchangeArtifact × Contexts)
    unfolding evaluate_package is_package
    matches_loop [] contexts = ok ([], contexts)
    matches_loop (a ∷ artifacts) contexts = elim (is_package a.kind) [
      | false ↦ matches_loop artifacts contexts
      | true ↦ do
        (is_match, after) ← evaluate_package a a.selection contexts
        (rest, last) ← matches_loop artifacts after
        ok (if is_match then a ∷ rest else rest, last)
    ]

-- Strictly before, in the order of code points.
unfoldable pub text_before : String → String → Bool
unfolding before_or_equal
text_before s t = not (before_or_equal (codes t) (codes s))

-- The normalization `unicodedata.normalize("NFC", …)` is a parameter.
module _ (normalize : String → String) where
  -- The order of the keys of `_select_exchange_candidate`, with `_candidate_filename_key`
  unfoldable pub key_before : ExchangeArtifact → ExchangeArtifact → Bool
  unfolding text_before name string_eq
  key_before a b =
      ltb b.mtime_ns a.mtime_ns
      || a.mtime_ns =ℕ b.mtime_ns
        && (text_before (normalize (name a.path)) (normalize (name b.path))
            || normalize (name a.path) == normalize (name b.path)
              && (text_before (name a.path) (name b.path)
                  || name a.path == name b.path && text_before a.path b.path))

  -- `min(matches, key=…)`: the first of the least ones.
  unfoldable pub least : ExchangeArtifact → List ExchangeArtifact → ExchangeArtifact
  unfolding key_before
  least best [] = best
  least best (a ∷ artifacts) = least (if key_before a best then a else best) artifacts
