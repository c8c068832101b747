-- ===== src/Exchange/Reopen.antt =====
-- src/patchharbor/exchange.py: a file that was classified is read again, and must be the same.
use patch_harbor.Base.{
  ℕ, String, Bool, ◌&&◌, is_some, List, Result, ok, err, ◌>>=◌, ◌>>◌, require, reraise, ◌==◌,
  string_eq, option_eq,
}
use patch_harbor.ExchangeState.Record.{ExchangeFileIdentity, identity_eq, selection_eq}
use patch_harbor.Zip.Policy.{ResourcePolicy, default_resource_policy}
use patch_harbor.Package.Resolve.{ValidatedPatchPackage}
use patch_harbor.Exchange.Artifact.{ExchangeArtifact, is_package, ContentClassification}
use patch_harbor.Exchange.Classify.{Readers, classify_content}
use patch_harbor.Exchange.Files.{
  ExchangeError, scan_error, value_raised, package_changed, FileView, read_exchange_file, or_raise,
}

-- `except ExchangeScanError as exc: raise patch_package_error(…) from exc`
unfoldable pub as_changed {ℓ} : {A : Type ℓ} → Result ExchangeError A → Result ExchangeError A
as_changed (err scan_error) = err package_changed
as_changed (err e) = err e
as_changed (ok a) = ok a

unfoldable pub is_same_package : ExchangeArtifact → ContentClassification → Bool
unfolding is_package selection_eq
is_same_package a c = is_package c.kind && c.selection == a.selection && is_some c.validated_package

module _ (files : String → FileView) where
  -- `materialize_exchange_patch`
  unfoldable pub materialize_exchange_patch :
      Readers
      → ResourcePolicy
      → ExchangeArtifact
      → String
      → Result ExchangeError ValidatedPatchPackage
  unfolding as_changed read_exchange_file classify_content is_same_package is_package identity_eq
  materialize_exchange_patch r policy a directory = do
    require (is_package a.kind && is_some a.selection) value_raised
    s ← as_changed (read_exchange_file files a.path directory policy.max_input_artifact_bytes)
    require (s.identity == a.identity) package_changed
    c ← reraise value_raised (classify_content r policy s.content)
    require (is_same_package a c) package_changed
    or_raise package_changed c.validated_package

  -- `require_exchange_identity_unchanged`
  unfoldable pub require_exchange_identity_unchanged :
      ExchangeFileIdentity → String → Result ExchangeError (Unit {0})
  unfolding as_changed read_exchange_file identity_eq
  require_exchange_identity_unchanged identity directory = do
    current ← as_changed (read_exchange_file files identity.path directory 1)
    require (current.identity == identity) package_changed

  -- `read_exchange_artifact_content`
  unfoldable pub read_exchange_artifact_content :
      ExchangeArtifact → String → Result ExchangeError (List ℕ)
  unfolding read_exchange_file default_resource_policy identity_eq
  read_exchange_artifact_content a directory = do
    s ← read_exchange_file files a.path directory default_resource_policy.max_input_artifact_bytes
    require (s.identity == a.identity) scan_error
    or_raise scan_error s.content
