-- ===== src/ExchangeState/Print.antt =====
-- src/patchharbor/exchange_state.py: `_encoded_state`, the JSON document that is written.
use patch_harbor.Base.{
  before_or_equal, Bool, Option, none, some, List, [], ◌∷◌, if◌then◌else◌, codes, ◌==◌, string_eq,
}
use patch_harbor.Models.{GitObjectId}
use patch_harbor.Json.{
  Json, null, number, text, array, object, Items, nil, item, end, field, string_or_null,
}
use patch_harbor.ExchangeState.Record.{
  ExchangeApplyStatus, attempted, failed, succeeded, ExchangePatchSelection, ExchangeStateRecord,
  identity_eq,
}

-- `_selection_document`
unfoldable pub selection_document : Option ExchangePatchSelection → Json
selection_document none = null
selection_document (some m) = object (
    field "base_commit" (text m.base_commit.value) (
      field "fingerprint_algorithm" (text m.fingerprint_algorithm) (
        field "repo_id" (text m.repo_id.value)
          (field "state_fingerprint" (text m.state_fingerprint) end))))

unfoldable pub status_document : Option ExchangeApplyStatus → Json
status_document none = null
status_document (some attempted) = text "attempted"
status_document (some failed) = text "failed"
status_document (some succeeded) = text "succeeded"

unfoldable pub commit_document : Option GitObjectId → Json
commit_document none = null
commit_document (some c) = text c.value

-- One entry of `_encoded_state`
unfoldable pub record_document : ExchangeStateRecord → Json
unfolding selection_document status_document commit_document string_or_null
record_document r = object (
    field "apply_status" (status_document r.apply_status) (
      field "attempt_run_id" (string_or_null r.attempt_run_id) (
        field "result_sha256" (string_or_null r.result_sha256) (
          field "completed_commit" (commit_document r.completed_commit) (
            field "kind" (text r.kind) (
              field "manifest" (selection_document r.manifest) (
                field "path" (text r.identity.path)
                  (field "sha256" (text r.identity.sha256) end))))))))

unfoldable pub entry_items : List ExchangeStateRecord → Items
unfolding record_document
entry_items [] = nil
entry_items (r ∷ rs) = item (record_document r) (entry_items rs)

-- The sort key: the path, then the digest.
unfoldable pub key_before_or_equal : ExchangeStateRecord → ExchangeStateRecord → Bool
unfolding before_or_equal
key_before_or_equal a b =
    if a.identity.path == b.identity.path
    then before_or_equal (codes a.identity.sha256) (codes b.identity.sha256)
    else before_or_equal (codes a.identity.path) (codes b.identity.path)

unfoldable pub insert_sorted :
    ExchangeStateRecord → List ExchangeStateRecord → List ExchangeStateRecord
insert_sorted r [] = r ∷ []
insert_sorted r (s ∷ rs) = if key_before_or_equal r s then r ∷ s ∷ rs else s ∷ insert_sorted r rs

-- `sorted(snapshot.records, key = …)`
unfoldable pub sort_records : List ExchangeStateRecord → List ExchangeStateRecord
sort_records [] = []
sort_records (r ∷ rs) = insert_sorted r (sort_records rs)

-- `_encoded_state`, up to the text of the document
unfoldable pub encoded_state : List ExchangeStateRecord → Json
unfolding entry_items
encoded_state records = object (
    field "entries" (array (entry_items (sort_records records)))
      (field "format_version" (number 4) end))
