-- ===== src/Watcher/Protocol.antt =====
-- src/patchharbor_watcher/protocol.py and src/patchharbor/watch_contract.py: what the watcher and its
-- worker exchange.
use patch_harbor.Base.{
  ℕ, String, ◌≡◌, Bool, true, false, not, Option, List, if◌then◌else◌, Result, ok, ◌>>◌, require,
  Eq, is_some, string_discrete, string_eq, ℕ_discrete,
}
use patch_harbor.Models.{ValueError, value_error, RepositoryId, RepositoryId-discrete}

pub data LockKind : Type 0 where
  registry repository exchange_state : LockKind

pub record LockReference : Type 0 where
  pub kind : LockKind
  pub repo_id : Option String

pub data Status : Type 0 where
  no_candidate was_attempted locked dry_run error : Status

pub record Progress : Type 0 where
  pub status : Status
  pub blocked_on : Option LockReference

abbrev pub is_locked : Status → Bool
is_locked locked = true
is_locked _ = false

-- `Progress.__post_init__`
unfoldable pub progress : Status → Option LockReference → Result ValueError Progress
progress status blocked_on = do
  require (if is_locked status then is_some blocked_on else not (is_some blocked_on)) value_error
  ok (record { status = status; blocked_on = blocked_on })

-- Progress that has passed its check.
abbrev pub IsProgress : Progress → Type 0
IsProgress p = progress p.status p.blocked_on ≡ ok p

-- One Exchange root with its physical identity and its owners.
pub record ExchangeWatchTarget : Type 0 where
  pub directory : String
  pub device : ℕ
  pub inode : ℕ
  pub repository_ids : List RepositoryId

unfoldable pub LockReference-discrete : Discrete LockReference
LockReference-discrete = hlevel string_discrete

instance unfoldable pub lock_reference_eq : Eq LockReference
unfolding LockReference-discrete string_discrete
lock_reference_eq = record { dec = LockReference-discrete }

unfoldable pub ExchangeWatchTarget-discrete : Discrete ExchangeWatchTarget
ExchangeWatchTarget-discrete = hlevel (string_discrete, ℕ_discrete, RepositoryId-discrete)

instance unfoldable pub watch_target_eq : Eq ExchangeWatchTarget
unfolding ExchangeWatchTarget-discrete string_discrete ℕ_discrete RepositoryId-discrete
watch_target_eq = record { dec = ExchangeWatchTarget-discrete }
