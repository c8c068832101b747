-- ===== src/Tests/Discover.antt =====
-- Runs of a discovery over an Exchange directory: src/patchharbor/application_exchange.py.
use patch_harbor.Base.{
  ◌≡◌, refl, Bool, true, false, Option, none, some, [], ◌∷◌, Result, ok, err, string_eq, nat_eq,
  string_discrete, option_eq, lookup,
}
use patch_harbor.Models.{
  RepositoryId, repository_id_eq, git_object_id_eq, git_object_format_eq, for_hex_length,
  git_object_id,
}
use patch_harbor.Paths.{parent}
use patch_harbor.ExchangeState.Record.{file_identity, identity_eq, selection_eq, apply_status_eq}
use patch_harbor.Bundle.Member.{text_eq, is_safe_path_segment, is_reserved}
use patch_harbor.Zip.Policy.{default_resource_policy}
use patch_harbor.Package.Manifest.{manifest_document, from_manifest}
use patch_harbor.Exchange.Reopen.{materialize_exchange_patch}
use patch_harbor.Exchange.Select.{
  RepositoryContext, ExchangeDiscoveryScope, DiscoverError, Settings, matches_loop,
}
use patch_harbor.Exchange.Discover.{first_contexts, discover_exchange_patch}
use patch_harbor.Exchange.DiscoverLaws.{eligible, firsts, matches_loop-eligible}
use patch_harbor.Tests.Exchange.{base, manifest, readers, files, artifact}

abbrev pub context : RepositoryContext
context = record {
  repo_id = manifest.repo_id;
  repository_path = record { value = "/work/app" };
  base_commit = base;
  dirty = false;
  state_fingerprint = "0123456789abcdef";
  fingerprint_algorithm = "patchharbor-state-v1";
}

abbrev pub settings : Settings
settings = (manifest.repo_id, some "/exchange") ∷ []

abbrev scope : ExchangeDiscoveryScope
scope = record { repository_context = none; allow_failed_retry = false }

abbrev pub capture : RepositoryId → Result DiscoverError (Option RepositoryContext)
capture _ = ok (some context)

matches_loop-eligible_example :
    firsts (
      matches_loop capture settings scope
        (artifact ∷ artifact ∷ [])
        (first_contexts scope.repository_context))
    ≡ eligible capture settings scope (artifact ∷ artifact ∷ [])
matches_loop-eligible_example =
    matches_loop-eligible capture settings scope (artifact ∷ artifact ∷ [])

abbrev succeeds {ℓ κ} : {E : Type κ} {A : Type ℓ} → Result E A → Bool
succeeds (ok a) = true
succeeds (err e) = false

discovers :
    succeeds (
      discover_exchange_patch
        (λ t. t)
        capture
        readers
        files
        settings
        scope
        (ok tt)
        (ok tt)
        (artifact ∷ []))
    ≡ true
unfolding discover_exchange_patch materialize_exchange_patch default_resource_policy
    manifest_document string_eq string_discrete text_eq nat_eq is_safe_path_segment is_reserved
    for_hex_length git_object_id parent file_identity identity_eq selection_eq option_eq
    from_manifest lookup repository_id_eq git_object_id_eq git_object_format_eq apply_status_eq
discovers = refl
