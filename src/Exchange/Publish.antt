-- ===== src/Exchange/Publish.antt =====
-- src/patchharbor/application_exchange.py: what a discovered patch writes to the ledger.
use patch_harbor.Base.{String, Bool, Option, none, some, Result, ok, err, ◌>>◌, if◌then◌else◌}
use patch_harbor.Models.{GitObjectId}
use patch_harbor.ExchangeState.Record.{
  failed, succeeded, ExchangePatchSelection, ExchangeFileIdentity,
}
use patch_harbor.ExchangeState.File.{Action, raise, selection_lost, evidence_rejected}
use patch_harbor.ExchangeState.Attempt.{mark_exchange_apply_started, mark_exchange_apply_finished}
use patch_harbor.ExchangeState.Receipt.{record_exchange_result_digest}
use patch_harbor.Watcher.Protocol.{ExchangeWatchTarget}
use patch_harbor.Exchange.Files.{FileView}
use patch_harbor.Exchange.Reopen.{require_exchange_identity_unchanged}
use patch_harbor.Exchange.Select.{DiscoverError}
use patch_harbor.Exchange.Discover.{DiscoveredExchangePatch, raised}
use patch_harbor.Exchange.Targets.{DirectoryView, require_watch_target_unchanged}

-- What the callback of a start meets: the target before and after, if there is one, the outcome of
-- comparing the configuration, and the files of the directory.
pub record StartView : Type 0 where
  pub watched : Option (ExchangeWatchTarget × (DirectoryView × DirectoryView))
  pub configuration_check : Result DiscoverError (Unit {0})
  pub files : String → FileView
  pub directory : String

abbrev target_before :
    Option (ExchangeWatchTarget × (DirectoryView × DirectoryView)) → Result DiscoverError (Unit {0})
target_before none = ok tt
target_before (some (target, (before, after))) = require_watch_target_unchanged before target

abbrev target_after :
    Option (ExchangeWatchTarget × (DirectoryView × DirectoryView)) → Result DiscoverError (Unit {0})
target_after none = ok tt
target_after (some (target, (before, after))) = require_watch_target_unchanged after target

-- `verify_identity`
unfoldable pub verify_identity : StartView → ExchangeFileIdentity → Result DiscoverError (Unit {0})
unfolding require_watch_target_unchanged require_exchange_identity_unchanged
verify_identity v identity = do
  target_before v.watched
  v.configuration_check
  raised (require_exchange_identity_unchanged v.files identity v.directory)
  target_after v.watched

-- The callback as an action: whatever it raises, the ledger is not written.
abbrev pub callback : Result DiscoverError (Unit {0}) → Action (Unit {0})
callback (ok u) d = (ok u, d)
callback (err e) d = (err evidence_rejected, d)

unfoldable pub with_selection :
    Option ExchangePatchSelection → (ExchangePatchSelection → Action (Unit {0})) → Action (Unit {0})
with_selection none write = raise selection_lost
with_selection (some s) write = write s

-- `DiscoveredExchangePatch.publish_attempt`
unfoldable pub publish_attempt :
    StartView → DiscoveredExchangePatch → Option String → Action (Unit {0})
unfolding with_selection mark_exchange_apply_started verify_identity
publish_attempt v p run_id = with_selection p.artifact.selection λ selection.
    mark_exchange_apply_started p.artifact.identity selection
      (callback (verify_identity v p.artifact.identity)) p.retry_failed p.explicitly_selected run_id

-- `DiscoveredExchangePatch.publish_result_digest`
unfoldable pub publish_result_digest : DiscoveredExchangePatch → String → String → Action (Unit {0})
unfolding with_selection record_exchange_result_digest
publish_result_digest p run_id digest =
    with_selection p.artifact.selection
      λ selection. record_exchange_result_digest p.artifact.identity selection run_id digest

-- `DiscoveredExchangePatch.publish_outcome`
unfoldable pub publish_outcome :
    DiscoveredExchangePatch → Bool → Option GitObjectId → Option String → Action (Unit {0})
unfolding with_selection mark_exchange_apply_finished
publish_outcome p success completed_commit run_id = with_selection p.artifact.selection λ selection.
    mark_exchange_apply_finished p.artifact.identity selection
      (if success then succeeded else failed) completed_commit run_id
