-- ===== src/Tests/Status.antt =====
-- Runs of the exit statuses: src/patchharbor/exit_status.py.
use patch_harbor.Base.{◌≡◌, ◌↔◌, some, ok}
use patch_harbor.Status.Codes.{reason_for_exit_code, exit_code_for_reason, timeout}
use patch_harbor.Status.CodeLaws.{reason_for_exit_code-exit_code_for_reason}

reason_for_exit_code-exit_code_for_reason_example :
    (reason_for_exit_code (some 124) ≡ ok timeout) ↔ (exit_code_for_reason timeout ≡ 124)
reason_for_exit_code-exit_code_for_reason_example =
    reason_for_exit_code-exit_code_for_reason timeout 124
