-- ===== src/ExchangeState/Record.antt =====
-- src/patchharbor/exchange_state.py: one ledger entry and the checks of its `__post_init__`.
use patch_harbor.Paths.{is_absolute}
use patch_harbor.Base.{
  is_some, String, Bool, true, false, ◌&&◌, not, Option, none, some, List, [], ◌∷◌, ◌=ℕ◌,
  if◌then◌else◌, length, all, codes, Result, ok, err, ◌>>◌, require, Eq, string_discrete, ◌==◌,
  contains, string_eq, option_eq,
}
use patch_harbor.Models.{
  ValueError, value_error, is_hex, GitObjectId, RepositoryId, is_uuid4, GitObjectId-discrete,
  RepositoryId-discrete, git_object_id_eq, repository_id_eq, git_object_format_eq,
}

pub data ExchangeApplyStatus : Type 0 where
  attempted failed succeeded : ExchangeApplyStatus

-- A `Path` is held as its POSIX text.
pub record ExchangeFileIdentity : Type 0 where
  pub path : String
  pub sha256 : String

pub record ExchangePatchSelection : Type 0 where
  pub repo_id : RepositoryId
  pub base_commit : GitObjectId
  pub state_fingerprint : String
  pub fingerprint_algorithm : String

pub record ExchangeStateRecord : Type 0 where
  pub identity : ExchangeFileIdentity
  pub kind : String
  pub manifest : Option ExchangePatchSelection
  pub apply_status : Option ExchangeApplyStatus
  pub completed_commit : Option GitObjectId
  pub attempt_run_id : Option String
  pub result_sha256 : Option String

unfoldable pub ExchangeApplyStatus-discrete : Discrete ExchangeApplyStatus
ExchangeApplyStatus-discrete = hlevel

unfoldable pub ExchangeFileIdentity-discrete : Discrete ExchangeFileIdentity
ExchangeFileIdentity-discrete = hlevel string_discrete

unfoldable pub ExchangePatchSelection-discrete : Discrete ExchangePatchSelection
ExchangePatchSelection-discrete =
    hlevel (string_discrete, RepositoryId-discrete, GitObjectId-discrete)

unfoldable pub ExchangeStateRecord-discrete : Discrete ExchangeStateRecord
ExchangeStateRecord-discrete = hlevel (
  string_discrete, ExchangeFileIdentity-discrete, ExchangePatchSelection-discrete,
  ExchangeApplyStatus-discrete, GitObjectId-discrete,
)

instance unfoldable pub apply_status_eq : Eq ExchangeApplyStatus
unfolding ExchangeApplyStatus-discrete
apply_status_eq = record { dec = ExchangeApplyStatus-discrete }

instance unfoldable pub identity_eq : Eq ExchangeFileIdentity
unfolding ExchangeFileIdentity-discrete string_discrete
identity_eq = record { dec = ExchangeFileIdentity-discrete }

instance unfoldable pub selection_eq : Eq ExchangePatchSelection
unfolding ExchangePatchSelection-discrete RepositoryId-discrete GitObjectId-discrete string_discrete
selection_eq = record { dec = ExchangePatchSelection-discrete }

instance unfoldable pub record_eq : Eq ExchangeStateRecord
unfolding ExchangeStateRecord-discrete identity_eq selection_eq apply_status_eq
record_eq = record { dec = ExchangeStateRecord-discrete }

abbrev pub patch_package : String
patch_package = "patch_package"

abbrev pub allowed_kinds : List String
allowed_kinds = "other" ∷ patch_package ∷ "result_bundle" ∷ []

abbrev pub fingerprint_algorithm : String
fingerprint_algorithm = "patchharbor-state-v1"

-- `_is_sha256`, at a text
unfoldable pub is_sha256 : String → Bool
unfolding is_hex
is_sha256 value = length (codes value) =ℕ 64 && all is_hex (codes value)

-- `ExchangeFileIdentity.__post_init__`
unfoldable pub file_identity : String → String → Result ValueError ExchangeFileIdentity
unfolding is_absolute is_sha256
file_identity path sha256 = do
  require (is_absolute path) value_error
  require (is_sha256 sha256) value_error
  ok (record { path = path; sha256 = sha256 })

-- `ExchangePatchSelection.__post_init__`
unfoldable pub patch_selection :
    RepositoryId → GitObjectId → String → String → Result ValueError ExchangePatchSelection
unfolding is_hex
patch_selection repo_id base_commit fingerprint algorithm = do
  require (length (codes fingerprint) =ℕ 16 && all is_hex (codes fingerprint)) value_error
  require (algorithm == fingerprint_algorithm) value_error
  ok (record {
    repo_id = repo_id;
    base_commit = base_commit;
    state_fingerprint = fingerprint;
    fingerprint_algorithm = algorithm;
  })

-- The three tests of `__post_init__` on the attempt, the receipt and the completion.
unfoldable pub run_id_fits : ExchangeStateRecord → Bool
unfolding is_uuid4
run_id_fits r = elim r.attempt_run_id [
  | none ↦ true
  | some run_id ↦ is_some r.apply_status && is_uuid4 run_id
]

unfoldable pub digest_fits : ExchangeStateRecord → Bool
unfolding is_sha256
digest_fits r = elim r.result_sha256 [
  | none ↦ true
  | some digest ↦
      is_sha256 digest
      && is_some r.attempt_run_id
      && contains (some attempted ∷ some succeeded ∷ []) r.apply_status
]

completes : GitObjectId → Option ExchangePatchSelection → Bool
completes commit none = false
completes commit (some m) =
    commit.object_format == m.base_commit.object_format && not (commit == m.base_commit)

unfoldable pub completion_fits : ExchangeStateRecord → Bool
unfolding completes
completion_fits r = elim r.completed_commit [
  | none ↦ true
  | some commit ↦ r.apply_status == some succeeded && completes commit r.manifest
]

-- `ExchangeStateRecord.__post_init__`, as the test that it passes
unfoldable pub is_valid : ExchangeStateRecord → Bool
unfolding run_id_fits digest_fits completion_fits
is_valid r =
    contains allowed_kinds r.kind
    && (if is_some r.manifest then r.kind == patch_package else not (r.kind == patch_package))
    && (if is_some r.apply_status then r.kind == patch_package else true)
    && run_id_fits r
    && digest_fits r
    && completion_fits r

-- Construction, also by `dataclasses.replace`
unfoldable pub checked : ExchangeStateRecord → Result ValueError ExchangeStateRecord
checked r = if is_valid r then ok r else err value_error

unfoldable pub same_classification : ExchangeStateRecord → ExchangeStateRecord → Bool
same_classification a b = a.identity == b.identity && a.kind == b.kind && a.manifest == b.manifest
