-- ===== src/Status/CodeLaws.antt =====
-- src/patchharbor/exit_status.py: a reason is read back from its number.
use patch_harbor.Base.{ℕ, ◌≡◌, ◌↔◌, some, ok, string_eq, arith}
use patch_harbor.Status.Codes.{
  FailureReason, usage_error, no_valid_script, source_error, interpreter_error,
  payload_preparation_error, execution_error, repository_error, state_mismatch, patch_package_error,
  result_bundle_error, repository_busy, unsupported_repository_state, timeout, interrupted,
  exit_code_for_reason, reason_for_exit_code,
}

-- A number is read as a reason exactly when it is the code of the reason.
pub reason_for_exit_code-exit_code_for_reason :
    (reason : FailureReason) (code : ℕ)
    → (reason_for_exit_code (some code) ≡ ok reason) ↔ (exit_code_for_reason reason ≡ code)
unfolding reason_for_exit_code exit_code_for_reason
reason_for_exit_code-exit_code_for_reason usage_error code =
    (λ h. ground (arith, h), λ h. ground (arith, h))
reason_for_exit_code-exit_code_for_reason no_valid_script code =
    (λ h. ground (arith, h), λ h. ground (arith, h))
reason_for_exit_code-exit_code_for_reason source_error code =
    (λ h. ground (arith, h), λ h. ground (arith, h))
reason_for_exit_code-exit_code_for_reason interpreter_error code =
    (λ h. ground (arith, h), λ h. ground (arith, h))
reason_for_exit_code-exit_code_for_reason payload_preparation_error code =
    (λ h. ground (arith, h), λ h. ground (arith, h))
reason_for_exit_code-exit_code_for_reason execution_error code =
    (λ h. ground (arith, h), λ h. ground (arith, h))
reason_for_exit_code-exit_code_for_reason repository_error code =
    (λ h. ground (arith, h), λ h. ground (arith, h))
reason_for_exit_code-exit_code_for_reason state_mismatch code =
    (λ h. ground (arith, h), λ h. ground (arith, h))
reason_for_exit_code-exit_code_for_reason patch_package_error code =
    (λ h. ground (arith, h), λ h. ground (arith, h))
reason_for_exit_code-exit_code_for_reason result_bundle_error code =
    (λ h. ground (arith, h), λ h. ground (arith, h))
reason_for_exit_code-exit_code_for_reason repository_busy code =
    (λ h. ground (arith, h), λ h. ground (arith, h))
reason_for_exit_code-exit_code_for_reason unsupported_repository_state code =
    (λ h. ground (arith, h), λ h. ground (arith, h))
reason_for_exit_code-exit_code_for_reason timeout code =
    (λ h. ground (arith, h), λ h. ground (arith, h))
reason_for_exit_code-exit_code_for_reason interrupted code =
    (λ h. ground (arith, h), λ h. ground (arith, h))
