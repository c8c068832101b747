-- ===== src/Zip/Policy.antt =====
-- src/patchharbor/resource_policy.py: the limits of one request. Sizes are numbers of bytes.
use patch_harbor.Base.{
  ℕ, ◌+◌, not, Option, none, some, ltb, leb, if◌then◌else◌, Result, ok, ◌>>◌, require,
}
use patch_harbor.Models.{ValueError, value_error}

pub record ResourcePolicy : Type 0 where
  pub warning_bytes : ℕ
  pub max_input_artifact_bytes : ℕ
  pub max_content_bytes : ℕ
  pub max_zip_total_bytes : ℕ
  pub max_zip_entries : ℕ

-- `ResourcePolicy.__post_init__`
unfoldable pub resource_policy : ResourcePolicy → Result ValueError ResourcePolicy
resource_policy p = do
  require (ltb 0 p.warning_bytes) value_error
  require (ltb 0 p.max_input_artifact_bytes) value_error
  require (ltb 0 p.max_content_bytes) value_error
  require (ltb 0 p.max_zip_total_bytes) value_error
  require (ltb 0 p.max_zip_entries) value_error
  require (not (ltb p.max_input_artifact_bytes p.warning_bytes)) value_error
  require (not (ltb p.max_content_bytes p.warning_bytes)) value_error
  ok p

abbrev pub max_result_files : ℕ
max_result_files = 250_000

abbrev result_auxiliary_entries : ℕ
result_auxiliary_entries = 10

-- `DEFAULT_RESOURCE_POLICY`
unfoldable pub default_resource_policy : ResourcePolicy
default_resource_policy = record {
  warning_bytes = 10_485_760;
  max_input_artifact_bytes = 268_435_456;
  max_content_bytes = 268_435_456;
  max_zip_total_bytes = 536_870_912;
  max_zip_entries = max_result_files + result_auxiliary_entries;
}

-- `large_content_warning`: the size that the warning names
unfoldable pub large_content_warning : ResourcePolicy → ℕ → Option ℕ
large_content_warning p size_bytes =
    if ltb p.warning_bytes size_bytes then some size_bytes else none

-- A raise of `ResultSnapshotLimitError` names the count.
pub data SnapshotLimitError : Type 0 where
  too_many_files : ℕ → SnapshotLimitError

-- `check_result_file_count`
unfoldable pub check_result_file_count : ℕ → ℕ → Result SnapshotLimitError (Unit {0})
check_result_file_count base_count untracked_count =
    require (leb (base_count + untracked_count) max_result_files)
      (too_many_files (base_count + untracked_count))
