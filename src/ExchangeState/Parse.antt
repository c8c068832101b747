-- ===== src/ExchangeState/Parse.antt =====
-- src/patchharbor/exchange_state.py: `_parse_state`, from the JSON document of the ledger to its records.
use patch_harbor.Base.{
  ℕ, String, Bool, true, false, ◌||◌, Option, none, some, List, [], ◌∷◌, ◌=ℕ◌, if◌then◌else◌,
  length, codes, Result, ok, err, ◌>>=◌, ◌>>◌, require, ◌==◌, string_eq,
}
use patch_harbor.Models.{
  ValueError, value_error, GitObjectId, repository_id, for_hex_length, git_object_id,
}
use patch_harbor.Json.{
  Json, null, boolean, number, text, array, object, Items, nil, item, Fields, get, has_exactly,
  has_unique_keys, require_string, optional_string,
}
use patch_harbor.Paths.{path_text}
use patch_harbor.ExchangeState.Record.{
  ExchangeApplyStatus, attempted, failed, succeeded, file_identity, ExchangePatchSelection,
  patch_selection, ExchangeStateRecord, checked, identity_eq,
}
use patch_harbor.ExchangeState.Snapshot.{snapshot}

abbrev manifest_fields : List String
manifest_fields = "base_commit" ∷ "fingerprint_algorithm" ∷ "repo_id" ∷ "state_fingerprint" ∷ []

abbrev legacy_entry_fields : List String
legacy_entry_fields = "attempted" ∷ "kind" ∷ "manifest" ∷ "path" ∷ "sha256" ∷ []

abbrev version_2_entry_fields : List String
version_2_entry_fields = "apply_status" ∷ "kind" ∷ "manifest" ∷ "path" ∷ "sha256" ∷ []

abbrev version_3_entry_fields : List String
version_3_entry_fields = "completed_commit" ∷ version_2_entry_fields

abbrev entry_fields : List String
entry_fields = "attempt_run_id" ∷ "result_sha256" ∷ version_3_entry_fields

unfoldable pub expected_fields : ℕ → List String
expected_fields v =
    if v =ℕ 1
    then legacy_entry_fields
    else if v =ℕ 2
    then version_2_entry_fields
    else if v =ℕ 3
    then version_3_entry_fields
    else entry_fields

-- `GitObjectId(text, GitObjectFormat.for_hex_length(len(text)))`
unfoldable pub parse_commit : String → Result ValueError GitObjectId
parse_commit value = do
  object_format ← for_hex_length (length (codes value))
  git_object_id value object_format

unfoldable pub selection_of_fields : Fields → Result ValueError ExchangePatchSelection
unfolding has_exactly require_string parse_commit repository_id patch_selection
selection_of_fields fs = do
  require (has_exactly manifest_fields fs) value_error
  repo_id_text ← require_string fs "repo_id"
  base_commit_text ← require_string fs "base_commit"
  state_fingerprint ← require_string fs "state_fingerprint"
  algorithm ← require_string fs "fingerprint_algorithm"
  repo_id ← repository_id repo_id_text
  base_commit ← parse_commit base_commit_text
  patch_selection repo_id base_commit state_fingerprint algorithm

-- `_parse_selection`; a missing key is another raise.
unfoldable pub parse_selection : Option Json → Result ValueError (Option ExchangePatchSelection)
unfolding selection_of_fields
parse_selection (some null) = ok none
parse_selection (some (object fs)) = do m ← selection_of_fields fs; ok (some m)
parse_selection _ = err value_error

unfoldable pub status_of_text : String → Result ValueError (Option ExchangeApplyStatus)
status_of_text s =
    if s == "attempted"
    then ok (some attempted)
    else if s == "failed"
    then ok (some failed)
    else if s == "succeeded"
    then ok (some succeeded)
    else err value_error

-- `_parse_apply_status`
unfoldable pub parse_apply_status : Option Json → Result ValueError (Option ExchangeApplyStatus)
unfolding status_of_text
parse_apply_status (some null) = ok none
parse_apply_status (some (text s)) = status_of_text s
parse_apply_status _ = err value_error

-- Format 1 holds a flag in place of the status.
unfoldable pub legacy_status : Option Json → Result ValueError (Option ExchangeApplyStatus)
legacy_status (some (boolean true)) = ok (some attempted)
legacy_status (some (boolean false)) = ok none
legacy_status _ = err value_error

unfoldable pub parse_completed : Option String → Result ValueError (Option GitObjectId)
unfolding parse_commit
parse_completed none = ok none
parse_completed (some s) = do c ← parse_commit s; ok (some c)

unfoldable pub record_of_fields : ℕ → Fields → Result ValueError ExchangeStateRecord
unfolding expected_fields has_exactly get require_string
record_of_fields version fs = do
  require (has_exactly (expected_fields version) fs) value_error
  raw_path ← require_string fs "path"
  sha256 ← require_string fs "sha256"
  kind ← require_string fs "kind"
  apply_status ←
      if version =ℕ 1
      then legacy_status (get fs "attempted")
      else parse_apply_status (get fs "apply_status")
  commit_text ← optional_string (get fs "completed_commit")
  identity ← file_identity (path_text raw_path) sha256
  manifest ← parse_selection (get fs "manifest")
  attempt_run_id ← optional_string (get fs "attempt_run_id")
  result_sha256 ← optional_string (get fs "result_sha256")
  completed_commit ← parse_completed commit_text
  checked (record {
    identity = identity;
    kind = kind;
    manifest = manifest;
    apply_status = apply_status;
    completed_commit = completed_commit;
    attempt_run_id = attempt_run_id;
    result_sha256 = result_sha256;
  })

-- `_parse_record`
unfoldable pub parse_record : ℕ → Json → Result ValueError ExchangeStateRecord
unfolding record_of_fields
parse_record version (object fs) = record_of_fields version fs
parse_record version _ = err value_error

unfoldable pub parse_records : ℕ → Items → Result ValueError (List ExchangeStateRecord)
unfolding parse_record
parse_records version nil = ok []
parse_records version (item v xs) = do
  r ← parse_record version v
  rs ← parse_records version xs
  ok (r ∷ rs)

abbrev document_fields : List String
document_fields = "entries" ∷ "format_version" ∷ []

unfoldable pub supported_version : ℕ → Bool
supported_version v = v =ℕ 1 || v =ℕ 2 || v =ℕ 3 || v =ℕ 4

unfoldable pub state_of_fields :
    Option Json → Option Json → Result ValueError (List ExchangeStateRecord)
unfolding supported_version parse_records snapshot
state_of_fields (some (number v)) (some (array entries)) = do
  require (supported_version v) value_error
  records ← parse_records v entries
  snapshot records
state_of_fields _ _ = err value_error

-- `_parse_state`, from the document that the bytes hold
unfoldable pub parse_state : Json → Result ValueError (List ExchangeStateRecord)
unfolding has_unique_keys has_exactly get state_of_fields
parse_state (object fs) = do
  require (has_unique_keys (object fs)) value_error
  require (has_exactly document_fields fs) value_error
  state_of_fields (get fs "format_version") (get fs "entries")
parse_state _ = err value_error
