-- ===== src/Watcher/Documents.antt =====
-- src/patchharbor_watcher/protocol.py: which documents tell which progress.
use patch_harbor.Base.{String, ◌≡◌, ◌≢◌, ◌⊎◌, true, is_some, Option, none, some, [], ◌∷◌, string_eq}
use patch_harbor.Json.{Json, null, number, text, object, Fields, get, has_exactly}
use patch_harbor.Watcher.Protocol.{
  LockKind, registry, repository, exchange_state, LockReference, Status, no_candidate,
  was_attempted, locked, dry_run, error, Progress,
}
use patch_harbor.Watcher.Messages.{is_uuid}

-- The names of the kinds of locks and of the statuses.
pub data Names : String → LockKind → Type 0 where
  registry_name : Names "registry" registry
  repository_name : Names "repository" repository
  exchange_state_name : Names "exchange_state" exchange_state

pub data Spells : String → Status → Type 0 where
  no_candidate_name : Spells "no_candidate" no_candidate
  attempted_name : Spells "attempted" was_attempted
  locked_name : Spells "locked" locked
  dry_run_name : Spells "dry_run" dry_run
  error_name : Spells "error" error

-- A lock of a repository has its ID, a canonical UUID; another lock has none.
pub data IsHeld : LockReference → Json → Type 0 where
  of_repository :
      {i : String}
      → is_uuid i ≡ true
      → IsHeld (record { kind = repository; repo_id = some i }) (text i)
  of_other : {k : LockKind} → k ≢ repository → IsHeld (record { kind = k; repo_id = none }) null

-- The document of a lock that a progress names, or `null` for none.
pub data Tells : Option LockReference → Json → Type 0 where
  no_lock : Tells none null
  one_lock :
      {l : LockReference} {fs : Fields} {s : String} {j : Json}
      → has_exactly ("kind" ∷ "repo_id" ∷ []) fs ≡ true
      → get fs "kind" ≡ some (text s)
      → Names s l.kind
      → get fs "repo_id" ≡ some j
      → IsHeld l j
      → Tells (some l) (object fs)

-- A progress that a document tells: its fields are those three, the version is 1, and it names a lock
-- exactly if its status is that of a lock.
pub record IsTold (p : Progress) (document : Json) : Type 0 where
  pub fields : Fields
  pub is_object : document ≡ object fields
  pub exact : has_exactly ("version" ∷ "status" ∷ "blocked_on" ∷ []) fields ≡ true
  pub version : get fields "version" ≡ some (number 1)
  pub word : String
  pub status : get fields "status" ≡ some (text word)
  pub spelled : Spells word p.status
  pub lock : Json
  pub blocked_on : get fields "blocked_on" ≡ some lock
  pub told : Tells p.blocked_on lock
  pub consistent :
      ((p.status ≡ locked) × (is_some p.blocked_on ≡ true))
      ⊎ ((p.status ≢ locked) × (p.blocked_on ≡ none))

-- The status and the lock fit together.
abbrev pub IsConsistent : Status → Option LockReference → Type 0
IsConsistent s o = ((s ≡ locked) × (is_some o ≡ true)) ⊎ ((s ≢ locked) × (o ≡ none))
