-- ===== src/Status/Codes.antt =====
-- src/patchharbor/errors.py, FailureReason, and src/patchharbor/exit_status.py.
use patch_harbor.Base.{
  ℕ, String, Bool, ◌&&◌, Option, none, some, ◌=ℕ◌, if◌then◌else◌, Result, ok, err, ◌==◌, string_eq,
}
use patch_harbor.Models.{ValueError, value_error}

pub data FailureReason : Type 0 where
  usage_error no_valid_script source_error interpreter_error payload_preparation_error
        execution_error repository_error state_mismatch patch_package_error result_bundle_error
        repository_busy unsupported_repository_state timeout interrupted :
      FailureReason

-- An exit code of `ExitCode` is held as its number.
unfoldable pub exit_code_for_reason : FailureReason → ℕ
exit_code_for_reason usage_error = 2
exit_code_for_reason no_valid_script = 3
exit_code_for_reason source_error = 4
exit_code_for_reason interpreter_error = 5
exit_code_for_reason payload_preparation_error = 6
exit_code_for_reason execution_error = 7
exit_code_for_reason repository_error = 8
exit_code_for_reason state_mismatch = 9
exit_code_for_reason patch_package_error = 10
exit_code_for_reason result_bundle_error = 11
exit_code_for_reason repository_busy = 12
exit_code_for_reason unsupported_repository_state = 13
exit_code_for_reason timeout = 124
exit_code_for_reason interrupted = 130

-- A status that was read: a number that is not negative, or another value, which raises.
unfoldable pub reason_for_exit_code : Option ℕ → Result ValueError FailureReason
reason_for_exit_code none = err value_error
reason_for_exit_code (some code) =
    if code =ℕ 2
    then ok usage_error
    else if code =ℕ 3
    then ok no_valid_script
    else if code =ℕ 4
    then ok source_error
    else if code =ℕ 5
    then ok interpreter_error
    else if code =ℕ 6
    then ok payload_preparation_error
    else if code =ℕ 7
    then ok execution_error
    else if code =ℕ 8
    then ok repository_error
    else if code =ℕ 9
    then ok state_mismatch
    else if code =ℕ 10
    then ok patch_package_error
    else if code =ℕ 11
    then ok result_bundle_error
    else if code =ℕ 12
    then ok repository_busy
    else if code =ℕ 13
    then ok unsupported_repository_state
    else if code =ℕ 124
    then ok timeout
    else if code =ℕ 130
    then ok interrupted
    else err value_error

-- The exit status of a process, which is negative after a signal.
pub data ProcessStatus : Type 0 where
  exited signalled : ℕ → ProcessStatus

-- `PrimaryOutcomeView`
pub record PrimaryOutcome : Type 0 where
  pub success : Bool
  pub failure_reason : Option FailureReason
  pub entrypoint_exit_code : Option ProcessStatus

abbrev pub status_of_reason : Option FailureReason → ProcessStatus
status_of_reason none = exited 0
status_of_reason (some reason) = exited (exit_code_for_reason reason)

abbrev pub or_reason : Option ProcessStatus → Option FailureReason → ProcessStatus
or_reason (some status) reason = status
or_reason none reason = status_of_reason reason

-- `primary_process_exit_code`
unfoldable pub primary_process_exit_code : PrimaryOutcome → ProcessStatus
unfolding exit_code_for_reason
primary_process_exit_code r = or_reason r.entrypoint_exit_code r.failure_reason

-- `completed_process_exit_code`
unfoldable pub completed_process_exit_code : String → PrimaryOutcome → String → ProcessStatus
unfolding primary_process_exit_code
completed_process_exit_code operation r result_bundle_status =
    let primary = primary_process_exit_code r in
    if operation == "bundle"
    then (if r.success && result_bundle_status == "created" then exited 0 else exited 11)
    else if r.success && result_bundle_status == "failed"
    then exited 11
    else primary
