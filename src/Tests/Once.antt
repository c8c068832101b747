-- ===== src/Tests/Once.antt =====
-- Runs of a discovery that is published and made again: src/patchharbor/application_exchange.py.
use patch_harbor.Base.{
  String, ◌≡◌, ◌≢◌, refl, true, false, Option, none, some, [], ◌∷◌, codes, Result, ok, err, Answers,
  string_eq, nat_eq, string_discrete, option_eq, lookup,
}
use patch_harbor.Models.{
  repository_id_eq, git_object_id_eq, git_object_format_eq, for_hex_length, git_object_id,
}
use patch_harbor.Paths.{parent, child, is_absolute}
use patch_harbor.ExchangeState.Record.{
  file_identity, identity_eq, selection_eq, apply_status_eq, checked, is_valid,
}
use patch_harbor.ExchangeState.File.{
  enter, prepare_state_directory, state_file_is_missing, load_if, replace_file, Disk, read_file,
  parse_content,
}
use patch_harbor.Json.{optional_string}
use patch_harbor.ExchangeState.Parse.{
  parse_state, parse_apply_status, parse_selection, parse_completed,
}
use patch_harbor.ExchangeState.Print.{encoded_state, sort_records, insert_sorted}
use patch_harbor.ExchangeState.Replay.{Reach}
use patch_harbor.Watcher.Protocol.{ExchangeWatchTarget}
use patch_harbor.Bundle.Member.{text_eq, is_safe_path_segment, is_reserved}
use patch_harbor.Zip.Policy.{default_resource_policy}
use patch_harbor.Package.Manifest.{manifest_document, from_manifest}
use patch_harbor.Exchange.Scan.{scan_exchange_directory}
use patch_harbor.Exchange.ScanLedger.{Scanned, scan_exchange_directory-Scanned}
use patch_harbor.Exchange.Select.{DiscoverError}
use patch_harbor.Exchange.Discover.{DiscoveredExchangePatch}
use patch_harbor.Exchange.Targets.{
  DirectoryStat, DirectoryView, TargetView, automatic_exchange_discovery_scope, discover_in_targets,
}
use patch_harbor.Exchange.Publish.{StartView, publish_attempt}
use patch_harbor.Exchange.Once.{published_once}
use patch_harbor.Tests.Exchange.{
  manifest, readers, files, files-IsNormal, surroundings, artifact, disk, disk-Holds,
}
use patch_harbor.Tests.Discover.{settings, capture}

abbrev found_patch : DiscoveredExchangePatch
found_patch = record {
  artifact = artifact;
  validated_package = record {
    manifest = manifest;
    entrypoint = record { relative_path = codes "run.sh"; content = 35 ∷ []; unix_mode = none };
    payloads = [];
    warnings = [];
    handoff = none;
    package_sha256 = none;
    package_size = none;
    entries = [];
  };
  retry_failed = false;
  explicitly_selected = false;
}

abbrev stat : DirectoryStat
stat = record { is_directory = true; device = 1; inode = 2 }

abbrev there : DirectoryView
there = record { before = some stat; physical = some "/exchange"; after = some stat }

abbrev target : ExchangeWatchTarget
target = record {
  directory = "/exchange";
  device = 1;
  inode = 2;
  repository_ids = manifest.repo_id ∷ [];
}

abbrev view : TargetView
view = record { before = there; surroundings = surroundings; after = there }

abbrev start_view : StartView
start_view = record {
  watched = some (target, (there, there));
  configuration_check = ok tt;
  files = files;
  directory = "/exchange";
}

-- The ledger behind a first scan
abbrev scanned_disk : Disk
scanned_disk = (scan_exchange_directory surroundings default_resource_policy "/exchange" disk).1

first_scan :
    Scanned [] (scan_exchange_directory surroundings default_resource_policy "/exchange" disk)
first_scan =
    scan_exchange_directory-Scanned surroundings default_resource_policy "/exchange" files-IsNormal
      [] disk disk-Holds

is_published : (publish_attempt start_view found_patch none scanned_disk).0 ≡ ok tt
unfolding scan_exchange_directory publish_attempt default_resource_policy manifest_document
    string_eq string_discrete text_eq nat_eq is_safe_path_segment is_reserved for_hex_length
    git_object_id parent child file_identity identity_eq selection_eq option_eq from_manifest
    checked is_valid enter prepare_state_directory state_file_is_missing load_if replace_file
    repository_id_eq is_absolute apply_status_eq read_file parse_content parse_state encoded_state
    sort_records insert_sorted parse_apply_status optional_string parse_selection parse_completed
is_published = refl

published_once_example :
    Answers
      (λ q. q.artifact.identity ≢ found_patch.artifact.identity)
      (discover_in_targets
        (λ t. t)
        capture
        readers
        files
        settings
        automatic_exchange_discovery_scope
        (ok tt)
        (ok tt)
        (λ _. view)
        (target ∷ [])
        (publish_attempt start_view found_patch none scanned_disk).1).0
published_once_example =
    published_once start_view found_patch none first_scan.after scanned_disk
      (publish_attempt start_view found_patch none scanned_disk).1 (λ t. t) capture readers files
      settings (ok tt) (ok tt) (λ _. view) (target ∷ []) first_scan.holds is_published Reach.here
      (λ _. files-IsNormal)

abbrev found_path : Result DiscoverError DiscoveredExchangePatch → Option String
found_path (ok q) = some q.artifact.path
found_path (err e) = none

-- The same discovery before and after the attempt is published
before_and_after :
    (found_path
        (discover_in_targets
          (λ t. t)
          capture
          readers
          files
          settings
          automatic_exchange_discovery_scope
          (ok tt)
          (ok tt)
          (λ _. view)
          (target ∷ [])
          disk).0
      ≡ some "/exchange/a.zip")
    × (found_path
          (discover_in_targets
            (λ t. t)
            capture
            readers
            files
            settings
            automatic_exchange_discovery_scope
            (ok tt)
            (ok tt)
            (λ _. view)
            (target ∷ [])
            (publish_attempt start_view found_patch none scanned_disk).1).0
        ≡ none)
unfolding scan_exchange_directory publish_attempt discover_in_targets default_resource_policy
    manifest_document string_eq string_discrete text_eq nat_eq is_safe_path_segment is_reserved
    for_hex_length git_object_id parent child file_identity identity_eq selection_eq option_eq
    from_manifest checked is_valid enter prepare_state_directory state_file_is_missing load_if
    replace_file repository_id_eq is_absolute apply_status_eq lookup git_object_id_eq
    git_object_format_eq read_file parse_content parse_state encoded_state sort_records
    insert_sorted parse_apply_status optional_string parse_selection parse_completed
before_and_after = (refl, refl)
