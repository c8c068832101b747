-- ===== src/ExchangeState/Replies.antt =====
-- src/patchharbor/exchange_state.py: on a disk that works, what a start answers.
use patch_harbor.Base.{◌≡◌, Bool, true, Option, none, some, if◌then◌else◌, Result, ok, err}
use patch_harbor.ExchangeState.Record.{
  ExchangeStateRecord, ExchangePatchSelection, identity_eq, apply_status_eq,
}
use patch_harbor.ExchangeState.File.{
  directory, free, stable, Disk, StateError, no_matching_state, already_attempted,
}
use patch_harbor.ExchangeState.Holds.{Holds}
use patch_harbor.ExchangeState.Attempt.{is_package_for, admits_start}

-- The lock is free, and every access of the directory and the file works.
pub record IsWorking (d : Disk) : Type 0 where
  pub lock : d.lock ≡ free
  pub directory : d.directory_kind ≡ directory
  pub reading : d.reading ≡ stable
  pub writing : d.writing_works ≡ true

-- What a start answers for the record that it finds.
abbrev pub start_answer :
    ExchangePatchSelection → Bool → Bool → Option ExchangeStateRecord → Result StateError (Unit {0})
start_answer selection retry_failed explicitly_selected none = err no_matching_state
start_answer selection retry_failed explicitly_selected (some r) =
    if is_package_for selection r
    then (if admits_start retry_failed explicitly_selected r.apply_status
        then ok tt
        else err already_attempted)
    else err no_matching_state
