-- ===== src/Exchange/Artifact.antt =====
-- src/patchharbor/exchange.py: one classified file, and its record in the ledger.
use patch_harbor.Base.{
  ℕ, String, is_some, Bool, true, false, ◌&&◌, not, Option, none, some, if◌then◌else◌, Result, ok,
  err, ◌>>=◌, ◌==◌, string_eq, option_eq,
}
use patch_harbor.Models.{ValueError, value_error}
use patch_harbor.ExchangeState.Record.{
  ExchangeApplyStatus, ExchangeFileIdentity, ExchangePatchSelection, ExchangeStateRecord, checked,
  selection_eq,
}
use patch_harbor.Package.Manifest.{from_manifest}
use patch_harbor.Package.Resolve.{ValidatedPatchPackage}

pub data ExchangeArtifactKind : Type 0 where
  patch_package result_bundle other : ExchangeArtifactKind

-- `kind.value`
unfoldable pub kind_value : ExchangeArtifactKind → String
kind_value patch_package = "patch_package"
kind_value result_bundle = "result_bundle"
kind_value other = "other"

-- `ExchangeArtifactKind(value)`
unfoldable pub artifact_kind : String → Result ValueError ExchangeArtifactKind
unfolding string_eq
artifact_kind value =
    if value == "patch_package"
    then ok patch_package
    else if value == "result_bundle"
    then ok result_bundle
    else if value == "other"
    then ok other
    else err value_error

unfoldable pub is_package : ExchangeArtifactKind → Bool
is_package patch_package = true
is_package result_bundle = false
is_package other = false

-- `mtime_ns` is not negative here.
pub record ExchangeArtifact : Type 0 where
  pub path : String
  pub identity : ExchangeFileIdentity
  pub mtime_ns : ℕ
  pub kind : ExchangeArtifactKind
  pub selection : Option ExchangePatchSelection
  pub apply_status : Option ExchangeApplyStatus
  pub validated_package : Option ValidatedPatchPackage

abbrev same_bool : Bool → Bool → Bool
same_bool true b = b
same_bool false b = not b

unfoldable pub is_selection :
    Option ExchangePatchSelection → Result ValueError ExchangePatchSelection → Bool
unfolding selection_eq
is_selection selection (ok s) = some s == selection
is_selection selection (err e) = false

unfoldable pub package_fits : ExchangeArtifact → Bool
unfolding from_manifest is_selection is_package
package_fits a = elim a.validated_package [
  | none ↦ true
  | some p ↦ is_package a.kind && is_selection a.selection (from_manifest p.manifest)
]

-- The tests of `ExchangeArtifact.__post_init__`
unfoldable pub artifact_fits : ExchangeArtifact → Bool
unfolding is_package package_fits string_eq
artifact_fits a =
    same_bool (is_some a.selection) (is_package a.kind)
    && package_fits a
    && (if is_some a.apply_status then is_package a.kind else true)
    && a.path == a.identity.path

-- Construction, also by `dataclasses.replace`
unfoldable pub exchange_artifact : ExchangeArtifact → Result ValueError ExchangeArtifact
unfolding artifact_fits
exchange_artifact a = if artifact_fits a then ok a else err value_error

-- `attempted`
unfoldable pub attempted : ExchangeArtifact → Bool
attempted a = is_some a.apply_status

-- `_artifact_from_record`
unfoldable pub artifact_from_record :
    String
    → ExchangeStateRecord
    → ℕ
    → Option ValidatedPatchPackage
    → Result ValueError ExchangeArtifact
unfolding artifact_kind exchange_artifact
artifact_from_record path r mtime_ns validated_package = do
  kind ← artifact_kind r.kind
  exchange_artifact (record {
    path = path;
    identity = r.identity;
    mtime_ns = mtime_ns;
    kind = kind;
    selection = r.manifest;
    apply_status = r.apply_status;
    validated_package = validated_package;
  })

abbrev pub new_record :
    ExchangeFileIdentity
    → ExchangeArtifactKind
    → Option ExchangePatchSelection
    → Option ExchangeApplyStatus
    → ExchangeStateRecord
new_record identity kind selection apply_status = record {
  identity = identity;
  kind = kind_value kind;
  manifest = selection;
  apply_status = apply_status;
  completed_commit = none;
  attempt_run_id = none;
  result_sha256 = none;
}

-- `_record_from_artifact`
unfoldable pub record_from_artifact : ExchangeArtifact → Result ValueError ExchangeStateRecord
unfolding kind_value checked
record_from_artifact a = checked (new_record a.identity a.kind a.selection a.apply_status)

pub record ContentClassification : Type 0 where
  pub kind : ExchangeArtifactKind
  pub selection : Option ExchangePatchSelection
  pub validated_package : Option ValidatedPatchPackage

-- `_record_from_classification`
unfoldable pub record_from_classification :
    ExchangeFileIdentity → ContentClassification → Result ValueError ExchangeStateRecord
unfolding kind_value checked
record_from_classification identity c = checked (new_record identity c.kind c.selection none)
