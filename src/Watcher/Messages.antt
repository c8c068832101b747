-- ===== src/Watcher/Messages.antt =====
-- src/patchharbor_watcher/protocol.py and src/patchharbor_watcher/apply_boundary.py: how a worker tells
-- the watcher about its progress.
use patch_harbor.Base.{
  ℕ, suc, zero, String, ◌=ℕ◌, Bool, false, Option, none, some, List, [], ◌∷◌, ◌++◌, codes,
  if◌then◌else◌, Result, ok, err, ◌>>=◌, ◌>>◌, require, ◌==◌, string_eq,
}
use patch_harbor.Models.{ValueError, value_error, UuidPlace, hex, dash, fit_all}
use patch_harbor.Json.{
  Json, null, number, text, object, Fields, end, field, get, has_exactly, string_or_null,
}
use patch_harbor.Watcher.Protocol.{
  LockKind, registry, repository, exchange_state, LockReference, Status, no_candidate,
  was_attempted, locked, dry_run, error, Progress, progress,
}

abbrev hexes : ℕ → List UuidPlace
hexes zero = []
hexes (suc n) = hex ∷ hexes n

-- `str(UUID(value)) == value`: the canonical spelling, of any version.
unfoldable pub is_uuid : String → Bool
unfolding fit_all
is_uuid value =
    fit_all (hexes 8 ++ dash ∷ (hexes 4 ++ dash ∷ (hexes 4 ++ dash ∷ (hexes 4 ++ dash ∷ hexes 12))))
      (codes value)

unfoldable pub kind_text : LockKind → String
kind_text registry = "registry"
kind_text repository = "repository"
kind_text exchange_state = "exchange_state"

unfoldable pub kind_of_text : String → Result ValueError LockKind
kind_of_text s =
    if s == "registry"
    then ok registry
    else if s == "repository"
    then ok repository
    else if s == "exchange_state"
    then ok exchange_state
    else err value_error

-- `LockReference.__post_init__`, at a kind that is one of the three
unfoldable pub lock_of_kind : LockKind → Json → Result ValueError LockReference
unfolding is_uuid
lock_of_kind repository (text i) = do
  require (is_uuid i) value_error
  ok (record { kind = repository; repo_id = some i })
lock_of_kind repository _ = err value_error
lock_of_kind kind null = ok (record { kind = kind; repo_id = none })
lock_of_kind kind _ = err value_error

unfoldable pub lock_reference : Option Json → Option Json → Result ValueError LockReference
unfolding kind_of_text lock_of_kind
lock_reference (some (text s)) (some i) = do kind ← kind_of_text s; lock_of_kind kind i
lock_reference _ _ = err value_error

abbrev lock_fields : List String
lock_fields = "kind" ∷ "repo_id" ∷ []

unfoldable pub read_lock : Option Json → Result ValueError (Option LockReference)
unfolding has_exactly get lock_reference
read_lock (some null) = ok none
read_lock (some (object fs)) = do
  require (has_exactly lock_fields fs) value_error
  lock ← lock_reference (get fs "kind") (get fs "repo_id")
  ok (some lock)
read_lock _ = err value_error

unfoldable pub status_text : Status → String
status_text no_candidate = "no_candidate"
status_text was_attempted = "attempted"
status_text locked = "locked"
status_text dry_run = "dry_run"
status_text error = "error"

-- A status that cannot be hashed raises `TypeError`, which the only caller treats like `ValueError`.
unfoldable pub status_of : Option Json → Result ValueError Status
status_of (some (text s)) =
    if s == "no_candidate"
    then ok no_candidate
    else if s == "attempted"
    then ok was_attempted
    else if s == "locked"
    then ok locked
    else if s == "dry_run"
    then ok dry_run
    else if s == "error"
    then ok error
    else err value_error
status_of _ = err value_error

-- `type(document['version']) is int and document['version'] == 1`
unfoldable pub is_version_1 : Option Json → Bool
is_version_1 (some (number n)) = n =ℕ 1
is_version_1 _ = false

abbrev pub progress_fields : List String
progress_fields = "version" ∷ "status" ∷ "blocked_on" ∷ []

-- `read_progress`
unfoldable pub read_progress : Json → Result ValueError Progress
unfolding has_exactly get is_version_1 read_lock status_of progress
read_progress (object fs) = do
  require (has_exactly progress_fields fs) value_error
  require (is_version_1 (get fs "version")) value_error
  lock ← read_lock (get fs "blocked_on")
  status ← status_of (get fs "status")
  progress status lock
read_progress _ = err value_error

unfoldable pub lock_document : Option LockReference → Json
unfolding kind_text string_or_null
lock_document none = null
lock_document (some l) =
    object (field "kind" (text (kind_text l.kind)) (field "repo_id" (string_or_null l.repo_id) end))

-- `progress_document`
unfoldable pub progress_document : Progress → Json
unfolding status_text lock_document
progress_document p = object (
    field "version" (number 1) (
      field "status" (text (status_text p.status))
        (field "blocked_on" (lock_document p.blocked_on) end)))

abbrev pub failure : Progress
failure = record { status = error; blocked_on = none }

unfoldable pub or_failure : Result ValueError Progress → Progress
or_failure (ok p) = p
or_failure (err _) = failure

-- `ApplyCompletion.progress`, from the document that the worker returned, if it returned one; a missing
-- key is `None`, which `read_progress` refuses.
unfoldable pub completion_progress : Option Fields → Progress
unfolding get read_progress or_failure
completion_progress none = failure
completion_progress (some fs) = elim (get fs "watcher_progress") [
  | none ↦ failure
  | some document ↦ or_failure (read_progress document)
]
