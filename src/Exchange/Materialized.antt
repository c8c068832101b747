-- ===== src/Exchange/Materialized.antt =====
-- src/patchharbor/exchange.py: a package is read again exactly when it is the one that was classified.
use patch_harbor.Base.{
  Bool, ◌↔◌, bind_ok, require_ok, equal_test, String, ◌≡◌, ap, ◌∙◌, true, ◌&&◌, some, arith,
  is_some, Result, ok, reraise, ◌==◌, option_eq, Answers-answer,
}
use patch_harbor.ExchangeState.Record.{identity_eq, selection_eq}
use patch_harbor.Zip.Policy.{ResourcePolicy}
use patch_harbor.Package.Resolve.{ValidatedPatchPackage}
use patch_harbor.Exchange.Artifact.{ExchangeArtifact, ContentClassification, is_package}
use patch_harbor.Exchange.Classify.{Readers}
use patch_harbor.Exchange.Files.{
  ExchangeError, value_raised, package_changed, FileView, read_exchange_file, or_raise,
}
use patch_harbor.Exchange.ClassifyLaws.{IsCaptured-read_exchange_file}
use patch_harbor.Exchange.Reopen.{as_changed, is_same_package, materialize_exchange_patch}
use patch_harbor.Exchange.ReopenLaws.{IsMaterialized, materialize_exchange_patch-IsMaterialized}

as_changed-ok : {A : Type 0} (m : Result ExchangeError A) (a : A) → m ≡ ok a → as_changed m ≡ ok a
unfolding as_changed
as_changed-ok m a h = ap as_changed h

all_same_package :
    (a : ExchangeArtifact) (c : ContentClassification) (pkg : ValidatedPatchPackage)
    → is_package c.kind ≡ true
    → c.selection ≡ a.selection
    → c.validated_package ≡ some pkg
    → is_same_package a c ≡ true
unfolding is_same_package
all_same_package a c pkg kind same found =
    ground (arith, kind, equal_test c.selection a.selection same, found)

both_tests : (p q : Bool) → p ≡ true → q ≡ true → (p && q) ≡ true
both_tests p q h k = ground arith

module _ (files : String → FileView) (directory : String) where
  -- Such a package is returned.
  IsMaterialized-materialize_exchange_patch :
      (r : Readers) (policy : ResourcePolicy) (a : ExchangeArtifact) (pkg : ValidatedPatchPackage)
      → IsMaterialized files r policy a directory pkg
      → materialize_exchange_patch files r policy a directory ≡ ok pkg
  unfolding materialize_exchange_patch
  IsMaterialized-materialize_exchange_patch r policy a pkg h =
      let s = h.unchanged.now in
      let c = h.classification in
      bind_ok _ tt _ (
        require_ok (is_package a.kind && is_some a.selection) value_raised (
          both_tests (is_package a.kind) (is_some a.selection) h.package_kind
            (ap is_some h.selection)))
      ∙ bind_ok _ s _ (
          as_changed-ok (read_exchange_file files a.path directory policy.max_input_artifact_bytes)
            s
            (IsCaptured-read_exchange_file files a.path directory policy.max_input_artifact_bytes s
              h.unchanged.captured))
      ∙ bind_ok _ tt _ (
          require_ok (s.identity == a.identity) package_changed
            (equal_test s.identity a.identity h.unchanged.same))
      ∙ bind_ok _ c _ (ap (reraise value_raised) h.classified)
      ∙ bind_ok _ tt _ (
          require_ok (is_same_package a c) package_changed
            (all_same_package a c pkg h.classified_kind h.classified_selection h.package_of))
      ∙ ap (or_raise package_changed) h.package_of

  -- A package is returned exactly when the artifact is one of a package, its path is still its own
  -- canonical path in the directory before and after a stable read, the bytes read have the artifact's
  -- digest, and their classification as a package has the artifact's binding and this package, whose
  -- manifest is valid.
  pub materialize_exchange_patch_exactly :
      (r : Readers) (policy : ResourcePolicy) (a : ExchangeArtifact) (pkg : ValidatedPatchPackage)
      → (materialize_exchange_patch files r policy a directory ≡ ok pkg)
        ↔ IsMaterialized files r policy a directory pkg
  materialize_exchange_patch_exactly r policy a pkg = (
    Answers-answer (IsMaterialized files r policy a directory)
        (materialize_exchange_patch files r policy a directory) pkg
        (materialize_exchange_patch-IsMaterialized files directory r policy a),
    IsMaterialized-materialize_exchange_patch r policy a pkg,
  )
