-- ===== src/Tests/Exchange.antt =====
-- Runs on the Exchange directory: src/patchharbor/exchange.py.
use mathlib.Core.Path.{subst}
use patch_harbor.Base.{
  ◌↔◌, String, ◌≡◌, refl, Bool, true, false, none, some, [], ◌∷◌, codes, Result, ok, err, Answers,
  string_eq, nat_eq, inl, string_discrete, option_eq,
}
use patch_harbor.Models.{sha1, GitObjectId, for_hex_length, git_object_id}
use patch_harbor.Paths.{path_text, parent, child}
use patch_harbor.ExchangeState.Record.{
  ExchangeFileIdentity, file_identity, ExchangePatchSelection, identity_eq, selection_eq, checked,
  is_valid,
}
use patch_harbor.ExchangeState.Snapshot.{has_distinct_identities}
use patch_harbor.ExchangeState.File.{
  enter, prepare_state_directory, state_file_is_missing, load_if, replace_file, Disk, free, missing,
  undecodable, stable,
}
use patch_harbor.ExchangeState.Holds.{Holds}
use patch_harbor.Bundle.Member.{text_eq, normalize_bundle_path, is_safe_path_segment, is_reserved}
use patch_harbor.Zip.Policy.{default_resource_policy}
use patch_harbor.Zip.Members.{ZipInfo}
use patch_harbor.Zip.Read.{done, chunk, archive}
use patch_harbor.Package.Manifest.{PatchManifest, manifest_document, from_manifest}
use patch_harbor.Package.Resolve.{ValidatedPatchPackage}
use patch_harbor.Exchange.Artifact.{ExchangeArtifact, ExchangeArtifactKind}
use patch_harbor.Exchange.Classify.{Readers}
use patch_harbor.Exchange.Files.{FileView}
use patch_harbor.Exchange.Scan.{Surroundings, scan_exchange_directory}
use patch_harbor.Exchange.ScanLaws.{IsNormal}
use patch_harbor.Exchange.ScanLedger.{Scanned, scan_exchange_directory-Scanned}
use patch_harbor.Exchange.Reopen.{materialize_exchange_patch}
use patch_harbor.Exchange.ReopenLaws.{IsMaterialized}
use patch_harbor.Exchange.Materialized.{materialize_exchange_patch_exactly}
use patch_harbor.Exchange.ScanComplete.{IsComplete, scan_exchange_directory-IsComplete}

abbrev pub digest : String
digest = "00112233445566778899aabbccddeeff00112233445566778899aabbccddeeff"

abbrev pub base : GitObjectId
base = record { value = "0123456789012345678901234567890123456789"; object_format = sha1 }

abbrev pub manifest : PatchManifest
manifest = record {
  marker = "patch-harbor";
  format_version = 1;
  repo_id = record { value = "0f1c0d4e-9a3b-4c2d-8e5f-0123456789ab" };
  base_commit = base;
  state_fingerprint = "0123456789abcdef";
  fingerprint_algorithm = "patchharbor-state-v1";
  entrypoint = "run.sh";
}

abbrev entry : String → ZipInfo
entry file = record {
  orig_filename = codes file;
  file_size = 1;
  create_system = 0;
  external_attr = 0;
  is_dir = false;
}

-- A package of a manifest and a script; the decoder gives the document of the manifest.
abbrev pub readers : Readers
readers = record {
  casefold = λ t. t;
  open_archive =
      λ _. archive (entry "patch.json" ∷ entry "run.sh" ∷ []) (λ _. chunk (35 ∷ []) done);
  decodes = λ _. true;
  loads = λ _. some (manifest_document manifest);
  loads_bytes = λ _. none;
  sha256 = λ _. digest;
  result_member_path = normalize_bundle_path;
}

-- Every path is canonical, and every file a package.
abbrev pub files : String → FileView
files path = record {
  canonical_before = some "/exchange/a.zip";
  stable = λ _. some (record { sha256 = digest; mtime_ns = 1; content = some (80 ∷ 75 ∷ []) });
  canonical_after = some "/exchange/a.zip";
}

pub files-IsNormal : IsNormal files
unfolding path_text
files-IsNormal p q h = subst (λ (t : String). path_text t ≡ t) (some_injective h) refl
  where
    some_injective : some "/exchange/a.zip" ≡ some q → "/exchange/a.zip" ≡ q
    some_injective e = cc

abbrev pub surroundings : Surroundings
surroundings = record {
  readers = readers;
  files = files;
  is_temporary = λ _. false;
  entries = some (
      (record { entry_name = "a.zip"; is_regular = some true })
      ∷ (record { entry_name = "b.zip"; is_regular = some true })
      ∷ (record { entry_name = "sub"; is_regular = some false })
      ∷ []);
}

abbrev pub selection : ExchangePatchSelection
selection = record {
  repo_id = manifest.repo_id;
  base_commit = base;
  state_fingerprint = "0123456789abcdef";
  fingerprint_algorithm = "patchharbor-state-v1";
}

abbrev pub identity : ExchangeFileIdentity
identity = record { path = "/exchange/a.zip"; sha256 = digest }

abbrev pub artifact : ExchangeArtifact
artifact = record {
  path = "/exchange/a.zip";
  identity = identity;
  mtime_ns = 1;
  kind = ExchangeArtifactKind.patch_package;
  selection = some selection;
  apply_status = none;
  validated_package = none;
}

abbrev pub disk : Disk
disk = record {
  lock = free;
  directory_kind = missing;
  mkdir_works = true;
  file_kind = missing;
  content = undecodable;
  reading = stable;
  writing_works = true;
}

pub disk-Holds : Holds disk []
unfolding has_distinct_identities
disk-Holds = record { storable = tt; distinct = refl; stored = inl (refl, refl) }

scan_exchange_directory-Scanned_example :
    Scanned [] (scan_exchange_directory surroundings default_resource_policy "/exchange" disk)
scan_exchange_directory-Scanned_example =
    scan_exchange_directory-Scanned surroundings default_resource_policy "/exchange" files-IsNormal
      [] disk disk-Holds

-- The package that is found in the file
abbrev found_package : ValidatedPatchPackage
found_package = record {
  manifest = manifest;
  entrypoint = record { relative_path = codes "run.sh"; content = 35 ∷ []; unix_mode = none };
  payloads = [];
  warnings = [];
  handoff = none;
  package_sha256 = some digest;
  package_size = some 2;
  entries =
      record { relative_path = codes "patch.json"; content = 35 ∷ []; unix_mode = none }
      ∷ record { relative_path = codes "run.sh"; content = 35 ∷ []; unix_mode = none }
      ∷ [];
}

scan_exchange_directory-IsComplete_example :
    Answers
      (IsComplete surroundings default_resource_policy "/exchange")
      (scan_exchange_directory surroundings default_resource_policy "/exchange" disk).0
scan_exchange_directory-IsComplete_example =
    scan_exchange_directory-IsComplete surroundings default_resource_policy "/exchange" disk

materialize_exchange_patch_exactly_example :
    (materialize_exchange_patch files readers default_resource_policy artifact "/exchange"
      ≡ ok found_package)
    ↔ IsMaterialized files readers default_resource_policy artifact "/exchange" found_package
materialize_exchange_patch_exactly_example =
    materialize_exchange_patch_exactly files "/exchange" readers default_resource_policy artifact
      found_package

abbrev succeeds {ℓ κ} : {E : Type κ} {A : Type ℓ} → Result E A → Bool
succeeds (ok a) = true
succeeds (err e) = false

materializes :
    materialize_exchange_patch files readers default_resource_policy artifact "/exchange"
    ≡ ok found_package
unfolding materialize_exchange_patch default_resource_policy manifest_document string_eq
    string_discrete text_eq nat_eq is_safe_path_segment is_reserved for_hex_length git_object_id
    parent file_identity identity_eq selection_eq option_eq from_manifest
materializes = refl

scans :
    succeeds (scan_exchange_directory surroundings default_resource_policy "/exchange" disk).0
    ≡ true
unfolding scan_exchange_directory default_resource_policy manifest_document string_eq
    string_discrete text_eq nat_eq is_safe_path_segment is_reserved for_hex_length git_object_id
    parent child file_identity identity_eq selection_eq option_eq from_manifest checked is_valid
    enter prepare_state_directory state_file_is_missing load_if replace_file
scans = refl
