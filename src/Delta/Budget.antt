-- ===== src/Delta/Budget.antt =====
-- src/patchharbor/snapshot_budget.py: the allocations of a reconstruction.
use patch_harbor.Base.{ℕ, ◌≡◌, ◌+◌, ◌≤◌, leb, Result, ok, ◌>>◌, require, arith}

-- `SnapshotErrorCode`, and `exhausted` for a loop of the model that has no fuel left.
pub data SnapshotError : Type 0 where
  resource_limit invalid_patch exhausted : SnapshotError

-- The two limits of `ResourcePolicy` that a budget reads.
pub record SnapshotBudget : Type 0 where
  pub max_content_bytes : ℕ
  pub max_zip_total_bytes : ℕ
  pub allocated : ℕ

-- `require_file`; a size is never negative here.
unfoldable pub require_file : ℕ → SnapshotBudget → Result SnapshotError (Unit {0})
require_file size b = require (leb size b.max_content_bytes) resource_limit

-- `require`
unfoldable pub require_size : ℕ → SnapshotBudget → Result SnapshotError (Unit {0})
unfolding require_file
require_size size b = do
  require_file size b
  require (leb (b.allocated + size) b.max_zip_total_bytes) resource_limit

-- `take`
unfoldable pub take_size : ℕ → SnapshotBudget → Result SnapshotError SnapshotBudget
unfolding require_size
take_size size b = do require_size size b; ok (record b { allocated = b.allocated + size })

-- A budget that has not been exceeded.
abbrev pub IsWithin : SnapshotBudget → Type 0
IsWithin b = b.allocated ≤ b.max_zip_total_bytes

-- What a `take` that succeeds has counted.
pub record Taken (size : ℕ) (b after : SnapshotBudget) : Type 0 where
  pub counted : after.allocated ≡ b.allocated + size
  pub same_content : after.max_content_bytes ≡ b.max_content_bytes
  pub same_total : after.max_zip_total_bytes ≡ b.max_zip_total_bytes
  pub content : size ≤ b.max_content_bytes
  pub within : IsWithin after

pub take_size-Taken :
    (size : ℕ) (b after : SnapshotBudget) → take_size size b ≡ ok after → Taken size b after
unfolding take_size require_size require_file
take_size-Taken size b after h = record {
  counted = ground (arith, h);
  same_content = ground (arith, h);
  same_total = ground (arith, h);
  content = ground (arith, h);
  within = ground (arith, h);
}
