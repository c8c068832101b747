-- ===== src/Watcher/Contract.antt =====
-- src/patchharbor/watch_contract.py: the values that the core gives to the watcher.
use patch_harbor.Base.{
  ℕ, String, ◌≡◌, Bool, true, false, ◌&&◌, not, Option, none, some, List, [], ◌∷◌, if◌then◌else◌,
  Result, ok, err, ◌>>◌, require, is_some, contains, arith,
}
use patch_harbor.Models.{ValueError, value_error, RepositoryId, repository_id_eq}
use patch_harbor.Paths.{is_absolute}
use patch_harbor.Watcher.Protocol.{
  LockKind, repository, LockReference, Status, Progress, progress, IsProgress, is_locked,
  ExchangeWatchTarget,
}

unfoldable pub are_distinct : List RepositoryId → Bool
are_distinct [] = true
are_distinct (i ∷ is) = not (contains is i) && are_distinct is

abbrev pub has_owner : List RepositoryId → Bool
has_owner [] = false
has_owner (i ∷ is) = true

-- `ExchangeWatchTarget.__post_init__`
unfoldable pub watch_target :
    String → ℕ → ℕ → List RepositoryId → Result ValueError ExchangeWatchTarget
unfolding is_absolute are_distinct
watch_target directory device inode repository_ids = do
  require (is_absolute directory) value_error
  require (has_owner repository_ids && are_distinct repository_ids) value_error
  ok (record {
    directory = directory;
    device = device;
    inode = inode;
    repository_ids = repository_ids;
  })

pub record ApplyLock : Type 0 where
  pub kind : LockKind
  pub repo_id : Option RepositoryId

-- `ApplyLock.__post_init__`
unfoldable pub apply_lock : LockKind → Option RepositoryId → Result ValueError ApplyLock
apply_lock repository (some i) = ok (record { kind = repository; repo_id = some i })
apply_lock repository none = err value_error
apply_lock kind none = ok (record { kind = kind; repo_id = none })
apply_lock kind (some i) = err value_error

pub record ApplyReadiness : Type 0 where
  pub blocked_on : Option ApplyLock

-- `ApplyReadiness.ready`
unfoldable pub is_available : ApplyReadiness → Bool
is_available r = not (is_some r.blocked_on)

-- Its statuses are those of the worker's progress.
pub record AutomaticApplyResult : Type 0 where
  pub status : Status
  pub blocked_on : Option ApplyLock

-- `AutomaticApplyResult.__post_init__`
unfoldable pub automatic_apply_result :
    Status → Option ApplyLock → Result ValueError AutomaticApplyResult
automatic_apply_result status blocked_on = do
  require (if is_locked status then is_some blocked_on else not (is_some blocked_on)) value_error
  ok (record { status = status; blocked_on = blocked_on })

abbrev pub id_text : Option RepositoryId → Option String
id_text none = none
id_text (some i) = some i.value

-- The lock as the watcher refers to it.
abbrev pub reference : Option ApplyLock → Option LockReference
reference none = none
reference (some l) = some (record { kind = l.kind; repo_id = id_text l.repo_id })

-- The progress that the document of a result speaks of.
abbrev pub reported : AutomaticApplyResult → Progress
reported r = record { status = r.status; blocked_on = reference r.blocked_on }

-- What the core may report is progress that the watcher accepts.
pub reported-IsProgress :
    (status : Status) (blocked_on : Option ApplyLock) (r : AutomaticApplyResult)
    → automatic_apply_result status blocked_on ≡ ok r
    → IsProgress (reported r)
unfolding automatic_apply_result progress
reported-IsProgress status none r h = ground (arith, h)
reported-IsProgress status (some l) r h = ground (arith, h)
