-- ===== src/Exchange/Targets.antt =====
-- src/patchharbor/application_exchange.py: the watched directories of a discovery, and its scans of
-- them. What the platform says of a directory is a parameter.
use patch_harbor.Base.{
  ℕ, String, Bool, true, false, ◌&&◌, not, Option, none, some, List, [], ◌∷◌, ◌++◌, ◌=ℕ◌, Result,
  ok, err, ◌>>=◌, ◌>>◌, require, reraise, ◌==◌, string_eq,
}
use patch_harbor.Models.{RepositoryId, repository_id_eq}
use patch_harbor.ExchangeState.File.{Disk}
use patch_harbor.Watcher.Protocol.{ExchangeWatchTarget}
use patch_harbor.Watcher.Contract.{watch_target}
use patch_harbor.Zip.Policy.{default_resource_policy}
use patch_harbor.Exchange.Artifact.{ExchangeArtifact}
use patch_harbor.Exchange.Classify.{Readers}
use patch_harbor.Exchange.Files.{ExchangeError, scan_error, FileView}
use patch_harbor.Exchange.Scan.{Surroundings, scan_exchange_directory}
use patch_harbor.Exchange.Select.{
  RepositoryContext, ExchangeDiscoveryScope, DiscoverError, unstable_target, cannot_observe,
  target_changed, cannot_scan, value_raised, Settings,
}
use patch_harbor.Exchange.Discover.{DiscoveredExchangePatch, discover_exchange_patch}

-- `os.stat_result`, as far as it is read
pub record DirectoryStat : Type 0 where
  pub is_directory : Bool
  pub device : ℕ
  pub inode : ℕ

-- What one observation of a directory meets; `none` is an `OSError` or a `RuntimeError`.
pub record DirectoryView : Type 0 where
  pub before : Option DirectoryStat
  pub physical : Option String
  pub after : Option DirectoryStat

abbrev observed {ℓ} : {A : Type ℓ} → Option A → Result DiscoverError A
observed none = err cannot_observe
observed (some a) = ok a

unfoldable pub is_stable : DirectoryStat → DirectoryStat → Bool
is_stable before after =
    before.is_directory
    && after.is_directory
    && not (before.inode =ℕ 0)
    && before.device =ℕ after.device
    && before.inode =ℕ after.inode

-- `_watch_target`
unfoldable pub observed_target :
    DirectoryView → String → List RepositoryId → Result DiscoverError ExchangeWatchTarget
unfolding is_stable string_eq watch_target
observed_target v directory repository_ids = do
  before ← observed v.before
  physical ← observed v.physical
  after ← observed v.after
  require (physical == directory && is_stable before after) unstable_target
  reraise value_raised (watch_target directory before.device before.inode repository_ids)

unfoldable pub same_ids : List RepositoryId → List RepositoryId → Bool
unfolding repository_id_eq
same_ids [] [] = true
same_ids (i ∷ is) (j ∷ js) = i == j && same_ids is js
same_ids _ _ = false

-- Equality of the dataclass
unfoldable pub same_target : ExchangeWatchTarget → ExchangeWatchTarget → Bool
unfolding same_ids string_eq
same_target a b =
    a.directory == b.directory
    && a.device =ℕ b.device
    && a.inode =ℕ b.inode
    && same_ids a.repository_ids b.repository_ids

-- `_require_watch_target_unchanged`
unfoldable pub require_watch_target_unchanged :
    DirectoryView → ExchangeWatchTarget → Result DiscoverError (Unit {0})
unfolding observed_target same_target
require_watch_target_unchanged v target = do
  now ← observed_target v target.directory target.repository_ids
  require (same_target now target) target_changed

-- `except ExchangeScanError as exc: raise configuration_error(…) from exc`
unfoldable pub scanned {ℓ} : {A : Type ℓ} → Result ExchangeError A → Result DiscoverError A
scanned (ok a) = ok a
scanned (err scan_error) = err cannot_scan
scanned (err e) = err (DiscoverError.exchange e)

-- What the scan of one target meets: the directory before and after it, and its files.
pub record TargetView : Type 0 where
  pub before : DirectoryView
  pub surroundings : Surroundings
  pub after : DirectoryView

-- The check behind a scan
unfoldable pub checked_scan :
    DirectoryView
    → ExchangeWatchTarget
    → Result ExchangeError (List ExchangeArtifact) × Disk
    → Result DiscoverError (List ExchangeArtifact) × Disk
unfolding scanned require_watch_target_unchanged
checked_scan v target (found, d) =
    ((do artifacts ← scanned found; require_watch_target_unchanged v target; ok artifacts), d)

-- One round of the loop over the targets
unfoldable pub scan_target :
    TargetView → ExchangeWatchTarget → Disk → Result DiscoverError (List ExchangeArtifact) × Disk
unfolding require_watch_target_unchanged checked_scan scan_exchange_directory
    default_resource_policy
scan_target v target d = elim (require_watch_target_unchanged v.before target) [
  | err e ↦ (err e, d)
  | ok _ ↦
      checked_scan v.after target
        (scan_exchange_directory v.surroundings default_resource_policy target.directory d)
]

unfoldable pub joined_scans :
    List ExchangeArtifact
    → Result DiscoverError (List ExchangeArtifact) × Disk
    → Result DiscoverError (List ExchangeArtifact) × Disk
joined_scans artifacts (found, d) = ((do rest ← found; ok (artifacts ++ rest)), d)

unfoldable pub scan_then :
    Result DiscoverError (List ExchangeArtifact) × Disk
    → (Disk → Result DiscoverError (List ExchangeArtifact) × Disk)
    → Result DiscoverError (List ExchangeArtifact) × Disk
unfolding joined_scans
scan_then (err e, d) rest = (err e, d)
scan_then (ok artifacts, d) rest = joined_scans artifacts (rest d)

-- The loop over the targets, with the archiving off
unfoldable pub scan_targets :
    (ExchangeWatchTarget → TargetView)
    → List ExchangeWatchTarget
    → Disk
    → Result DiscoverError (List ExchangeArtifact) × Disk
unfolding scan_then scan_target
scan_targets views [] d = (ok [], d)
scan_targets views (target ∷ targets) d =
    scan_then (scan_target (views target) target d) (scan_targets views targets)

-- `_automatic_exchange_discovery_scope`; the targets are those of the settings.
abbrev pub automatic_exchange_discovery_scope : ExchangeDiscoveryScope
automatic_exchange_discovery_scope = record {
  repository_context = none;
  allow_failed_retry = false;
}

-- `discover_exchange_patch(scope, archive=False)`, behind the settings
unfoldable pub discover_in_targets :
    (String → String)
    → (RepositoryId → Result DiscoverError (Option RepositoryContext))
    → Readers
    → (String → FileView)
    → Settings
    → ExchangeDiscoveryScope
    → Result DiscoverError (Unit {0})
    → Result DiscoverError (Unit {0})
    → (ExchangeWatchTarget → TargetView)
    → List ExchangeWatchTarget
    → Disk
    → Result DiscoverError DiscoveredExchangePatch × Disk
unfolding scan_targets discover_exchange_patch
discover_in_targets normalize capture r files settings scope first_check second_check views targets
      d =
    let (found, after) = scan_targets views targets d in
    (
      found
          >>= discover_exchange_patch normalize capture r files settings scope first_check
              second_check,
      after,
    )
