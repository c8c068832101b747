-- ===== src/ExchangeState/RoundTrip.antt =====
-- src/patchharbor/exchange_state.py: reading back what was written.
use mathlib.Core.Option
use patch_harbor.Base.{
  String, ◌≡◌, refl, true, Option, none, some, List, [], ◌∷◌, All, ok, string_eq,
}
use patch_harbor.Models.{
  GitObjectId, git_object_id, repository_id, git_object_id-length,
  for_hex_length-object_id_hex_length,
}
use patch_harbor.Json.{
  get, has_exactly, has_unique_keys, items_have_unique_keys, require_string, optional_string,
  string_or_null,
}
use patch_harbor.Paths.{path_text}
use patch_harbor.ExchangeState.Record.{
  ExchangeApplyStatus, attempted, failed, succeeded, file_identity, ExchangePatchSelection,
  patch_selection, ExchangeStateRecord, checked, identity_eq,
}
use patch_harbor.ExchangeState.Snapshot.{snapshot, has_distinct_identities}
use patch_harbor.ExchangeState.Sorted.{All-sort_records, has_distinct_identities-sort_records}
use patch_harbor.ExchangeState.Parse.{
  parse_commit, parse_selection, parse_apply_status, parse_completed, parse_record, parse_records,
  parse_state,
}
use patch_harbor.ExchangeState.Print.{
  selection_document, status_document, commit_document, record_document, entry_items, encoded_state,
  sort_records,
}

abbrev pub IsCommit : GitObjectId → Type 0
IsCommit c = git_object_id c.value c.object_format ≡ ok c

-- The values that the constructors let through.
pub record IsSelection (m : ExchangePatchSelection) : Type 0 where
  pub repo_id : repository_id m.repo_id.value ≡ ok m.repo_id
  pub base_commit : IsCommit m.base_commit
  pub fields :
      patch_selection m.repo_id m.base_commit m.state_fingerprint m.fingerprint_algorithm ≡ ok m

abbrev pub AllOf {ℓ} : {A : Type 0} → (A → Type ℓ) → Option A → Type ℓ
AllOf P none = Unit
AllOf P (some a) = P a

pub record IsStorable (r : ExchangeStateRecord) : Type 0 where
  pub path : path_text r.identity.path ≡ r.identity.path
  pub identity : file_identity r.identity.path r.identity.sha256 ≡ ok r.identity
  pub manifest : AllOf IsSelection r.manifest
  pub completed_commit : AllOf IsCommit r.completed_commit
  pub valid : checked r ≡ ok r

parse_commit-value : (c : GitObjectId) → IsCommit c → parse_commit c.value ≡ ok c
unfolding parse_commit
parse_commit-value c h =
    rw
      (
        (git_object_id-length c.value c.object_format h).0,
        for_hex_length-object_id_hex_length c.object_format,
      )
      h

parse_selection-document :
    (m : Option ExchangePatchSelection)
    → AllOf IsSelection m
    → parse_selection (some (selection_document m)) ≡ ok m
unfolding parse_selection selection_document string_eq
parse_selection-document none h = refl
parse_selection-document (some m) h =
    rw (h.repo_id, parse_commit-value m.base_commit h.base_commit, h.fields)

parse_apply_status-document :
    (s : Option ExchangeApplyStatus) → parse_apply_status (some (status_document s)) ≡ ok s
unfolding parse_apply_status status_document string_eq
parse_apply_status-document none = refl
parse_apply_status-document (some attempted) = refl
parse_apply_status-document (some failed) = refl
parse_apply_status-document (some succeeded) = refl

parse_completed-document :
    (c : Option GitObjectId)
    → AllOf IsCommit c
    → optional_string (some (commit_document c)) ≡ ok (Option.map (λ x. x.value) c)
unfolding optional_string commit_document
parse_completed-document none h = refl
parse_completed-document (some c) h = refl

parse_completed-value :
    (c : Option GitObjectId)
    → AllOf IsCommit c
    → parse_completed (Option.map (λ x. x.value) c) ≡ ok c
unfolding parse_completed
parse_completed-value none h = refl
parse_completed-value (some c) h = rw (parse_commit-value c h)

optional_string-document : (s : Option String) → optional_string (some (string_or_null s)) ≡ ok s
unfolding optional_string string_or_null
optional_string-document none = refl
optional_string-document (some s) = refl

parse_record-document :
    (r : ExchangeStateRecord) → IsStorable r → parse_record 4 (record_document r) ≡ ok r
unfolding parse_record record_document string_eq get has_exactly require_string
parse_record-document r h =
    rw
      (
        parse_apply_status-document r.apply_status,
        parse_completed-document r.completed_commit h.completed_commit,
        h.path,
        h.identity,
        parse_selection-document r.manifest h.manifest,
        optional_string-document r.attempt_run_id,
        optional_string-document r.result_sha256,
        parse_completed-value r.completed_commit h.completed_commit,
      )
      h.valid

has_unique_keys-string_or_null : (s : Option String) → has_unique_keys (string_or_null s) ≡ true
unfolding has_unique_keys string_or_null
has_unique_keys-string_or_null none = refl
has_unique_keys-string_or_null (some s) = refl

has_unique_keys-status :
    (s : Option ExchangeApplyStatus) → has_unique_keys (status_document s) ≡ true
unfolding has_unique_keys status_document
has_unique_keys-status none = refl
has_unique_keys-status (some attempted) = refl
has_unique_keys-status (some failed) = refl
has_unique_keys-status (some succeeded) = refl

has_unique_keys-commit : (c : Option GitObjectId) → has_unique_keys (commit_document c) ≡ true
unfolding has_unique_keys commit_document
has_unique_keys-commit none = refl
has_unique_keys-commit (some c) = refl

has_unique_keys-selection :
    (m : Option ExchangePatchSelection) → has_unique_keys (selection_document m) ≡ true
unfolding has_unique_keys selection_document string_eq
has_unique_keys-selection none = refl
has_unique_keys-selection (some m) = refl

has_unique_keys-record : (r : ExchangeStateRecord) → has_unique_keys (record_document r) ≡ true
unfolding has_unique_keys record_document string_eq
has_unique_keys-record r = rw (
  has_unique_keys-status r.apply_status,
  has_unique_keys-string_or_null r.attempt_run_id,
  has_unique_keys-string_or_null r.result_sha256,
  has_unique_keys-commit r.completed_commit,
  has_unique_keys-selection r.manifest,
)

has_unique_keys-items :
    (rs : List ExchangeStateRecord) → items_have_unique_keys (entry_items rs) ≡ true
unfolding has_unique_keys entry_items
has_unique_keys-items [] = refl
has_unique_keys-items (r ∷ rs) = rw (has_unique_keys-record r, has_unique_keys-items rs)

parse_records-items :
    (rs : List ExchangeStateRecord) → All IsStorable rs → parse_records 4 (entry_items rs) ≡ ok rs
unfolding parse_records entry_items
parse_records-items [] h = refl
parse_records-items (r ∷ rs) h = rw (parse_record-document r h.0, parse_records-items rs h.1)

snapshot-distinct :
    (rs : List ExchangeStateRecord) → has_distinct_identities rs ≡ true → snapshot rs ≡ ok rs
unfolding snapshot
snapshot-distinct rs h = rw h

-- The document that is written for storable records with distinct identities is read back as the
-- same records in the order of their keys.
pub parse_state-encoded_state :
    (rs : List ExchangeStateRecord)
    → All IsStorable rs
    → has_distinct_identities rs ≡ true
    → parse_state (encoded_state rs) ≡ ok (sort_records rs)
unfolding parse_state encoded_state has_exactly string_eq
parse_state-encoded_state rs h distinct =
    let sorted = sort_records rs in
    rw (has_unique_keys-items sorted, parse_records-items sorted (All-sort_records IsStorable rs h))
      (snapshot-distinct sorted (has_distinct_identities-sort_records rs distinct))
