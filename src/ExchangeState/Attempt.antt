-- ===== src/ExchangeState/Attempt.antt =====
-- src/patchharbor/exchange_state.py: the start and the end of an attempt.
use patch_harbor.Base.{
  is_some, String, Bool, false, ◌&&◌, ◌||◌, not, Option, none, some, List, [], ◌∷◌, if◌then◌else◌,
  Result, ok, err, ◌==◌, contains, string_eq, option_eq,
}
use patch_harbor.Models.{ValueError, GitObjectId}
use patch_harbor.ExchangeState.Record.{
  ExchangeApplyStatus, attempted, failed, succeeded, ExchangeFileIdentity, ExchangePatchSelection,
  ExchangeStateRecord, checked, identity_eq, selection_eq, apply_status_eq, record_eq,
  patch_package,
}
use patch_harbor.ExchangeState.Snapshot.{record_for, snapshot}
use patch_harbor.ExchangeState.File.{
  Action, ◌>>=◌, ◌>>◌, raise, valued, demand, with_state_lock, load_unlocked, write_unlocked,
  invalid_value, no_matching_state, already_attempted, no_active_attempt,
}

-- `replace(item, …) if test(item) else item for item in records`
unfoldable pub revise :
    (ExchangeStateRecord → Bool)
    → (ExchangeStateRecord → ExchangeStateRecord)
    → List ExchangeStateRecord
    → Result ValueError (List ExchangeStateRecord)
unfolding checked
revise test change [] = ok []
revise test change (r ∷ rs) =
    let rest = revise test change rs in
    elim (if test r then checked (change r) else ok r) [
      | err e ↦ err e
      | ok r' ↦ elim rest [ err e ↦ err e | ok rs' ↦ ok (r' ∷ rs') ]
    ]

unfoldable pub has_identity : ExchangeFileIdentity → ExchangeStateRecord → Bool
has_identity identity r = r.identity == identity

-- `_write_unlocked(paths, ExchangeStateSnapshot(tuple(…)))`
unfoldable pub write_revised :
    (ExchangeStateRecord → Bool)
    → (ExchangeStateRecord → ExchangeStateRecord)
    → List ExchangeStateRecord
    → Action (Unit {0})
unfolding revise snapshot write_unlocked ◌>>=◌
write_revised test change current = do
  next_records ← valued invalid_value (revise test change current)
  next ← valued invalid_value (snapshot next_records)
  write_unlocked next

-- `record is None or record.kind != "patch_package" or record.manifest != selection`, negated
unfoldable pub is_package_for : ExchangePatchSelection → ExchangeStateRecord → Bool
is_package_for selection r = r.kind == patch_package && r.manifest == some selection

abbrev pub started : Option String → ExchangeStateRecord → ExchangeStateRecord
started run_id r = record r {
  apply_status = some attempted;
  completed_commit = none;
  attempt_run_id = run_id;
  result_sha256 = none;
}

-- Whether a start is admitted at the status that the record has.
unfoldable pub admits_start : Bool → Bool → Option ExchangeApplyStatus → Bool
admits_start retry_failed explicitly_selected status =
    not (is_some status) || retry_failed && status == some failed || explicitly_selected

unfoldable pub start_record :
    ExchangeFileIdentity
    → ExchangePatchSelection
    → Bool
    → Bool
    → Option String
    → List ExchangeStateRecord
    → Option ExchangeStateRecord
    → Action (Unit {0})
unfolding is_package_for admits_start write_revised has_identity ◌>>=◌
start_record identity selection retry_failed explicitly_selected run_id current none =
    raise no_matching_state
start_record identity selection retry_failed explicitly_selected run_id current (some r) = do
  demand (is_package_for selection r) no_matching_state
  demand (admits_start retry_failed explicitly_selected r.apply_status) already_attempted
  write_revised (has_identity identity) (started run_id) current

-- `mark_exchange_apply_started`
unfoldable pub mark_exchange_apply_started :
    ExchangeFileIdentity
    → ExchangePatchSelection
    → Action (Unit {0})
    → Bool
    → Bool
    → Option String
    → Action (Unit {0})
unfolding with_state_lock load_unlocked start_record record_for ◌>>=◌
mark_exchange_apply_started identity selection verify_identity retry_failed explicitly_selected
      run_id =
    with_state_lock do
      verify_identity
      current ← load_unlocked
      start_record identity selection retry_failed explicitly_selected run_id current
          (record_for identity current)

-- `mark_exchange_attempted`
pub mark_exchange_attempted :
    ExchangeFileIdentity → ExchangePatchSelection → Action (Unit {0}) → Action (Unit {0})
unfolding mark_exchange_apply_started
mark_exchange_attempted identity selection verify_identity =
    mark_exchange_apply_started identity selection verify_identity false false none

-- `candidate.result_sha256 if status is SUCCEEDED else None`
abbrev pub kept_digest : ExchangeApplyStatus → Option String → Option String
kept_digest succeeded digest = digest
kept_digest _ digest = none

abbrev pub finished :
    ExchangeApplyStatus → Option GitObjectId → ExchangeStateRecord → ExchangeStateRecord
finished status completed_commit r = record r {
  apply_status = some status;
  completed_commit = completed_commit;
  result_sha256 = kept_digest status r.result_sha256;
}

unfoldable pub finish_record :
    ExchangeFileIdentity
    → ExchangePatchSelection
    → ExchangeApplyStatus
    → Option GitObjectId
    → Option String
    → List ExchangeStateRecord
    → Option ExchangeStateRecord
    → Action (Unit {0})
unfolding is_package_for write_revised has_identity ◌>>=◌
finish_record identity selection status completed_commit run_id current none =
    raise no_matching_state
finish_record identity selection status completed_commit run_id current (some r) = do
  demand (is_package_for selection r) no_matching_state
  demand (r.apply_status == some attempted && r.attempt_run_id == run_id) no_active_attempt
  write_revised (has_identity identity) (finished status completed_commit) current

-- `mark_exchange_apply_finished`
unfoldable pub mark_exchange_apply_finished :
    ExchangeFileIdentity
    → ExchangePatchSelection
    → ExchangeApplyStatus
    → Option GitObjectId
    → Option String
    → Action (Unit {0})
unfolding with_state_lock load_unlocked finish_record record_for ◌>>=◌
mark_exchange_apply_finished identity selection status completed_commit run_id = do
  demand (contains (failed ∷ succeeded ∷ []) status) invalid_value
  with_state_lock do
    current ← load_unlocked
    finish_record identity selection status completed_commit run_id current
        (record_for identity current)
