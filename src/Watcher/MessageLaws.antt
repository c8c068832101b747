-- ===== src/Watcher/MessageLaws.antt =====
-- src/patchharbor_watcher/protocol.py: what a worker says is read as it was meant, and anything else as
-- an error.
use patch_harbor.Base.{
  ap, ◌∙◌, ◌≡◌, refl, Option, none, some, ok, ◌>>=◌, string_eq, string_discrete,
}
use patch_harbor.Json.{text, get, has_exactly, string_or_null}
use patch_harbor.Watcher.Protocol.{
  LockKind, registry, repository, exchange_state, LockReference, Status, no_candidate,
  was_attempted, locked, dry_run, error, Progress, progress, IsProgress,
}
use patch_harbor.Watcher.Messages.{
  kind_text, kind_of_text, lock_of_kind, lock_reference, read_lock, status_text, status_of,
  is_version_1, read_progress, lock_document, progress_document,
}

-- A lock that has passed its check.
abbrev pub IsLock : LockReference → Type 0
IsLock l = lock_of_kind l.kind (string_or_null l.repo_id) ≡ ok l

abbrev pub IsLocked : Option LockReference → Type 0
IsLocked none = Unit
IsLocked (some l) = IsLock l

kind_of_text-kind_text : (k : LockKind) → kind_of_text (kind_text k) ≡ ok k
unfolding kind_of_text kind_text string_eq string_discrete
kind_of_text-kind_text registry = refl
kind_of_text-kind_text repository = refl
kind_of_text-kind_text exchange_state = refl

status_of-status_text : (s : Status) → status_of (some (text (status_text s))) ≡ ok s
unfolding status_of status_text string_eq string_discrete
status_of-status_text no_candidate = refl
status_of-status_text was_attempted = refl
status_of-status_text locked = refl
status_of-status_text dry_run = refl
status_of-status_text error = refl

read_lock-lock_document :
    (o : Option LockReference) → IsLocked o → read_lock (some (lock_document o)) ≡ ok o
unfolding read_lock lock_document lock_reference has_exactly get string_eq string_discrete
read_lock-lock_document none h = refl
read_lock-lock_document (some l) h =
    ap
      (λ k.
        k >>= (λ kind. lock_of_kind kind (string_or_null l.repo_id)) >>= (λ lock. ok (some lock)))
      (kind_of_text-kind_text l.kind)
    ∙ ap (λ r. r >>= (λ lock. ok (some lock))) h

-- The document of a progress that has passed its check, with a lock that has, is read as that progress.
pub read_progress-progress_document :
    (p : Progress)
    → IsProgress p
    → IsLocked p.blocked_on
    → read_progress (progress_document p) ≡ ok p
unfolding read_progress progress_document has_exactly get is_version_1 string_eq string_discrete
read_progress-progress_document p valid lock =
    ap (λ r. r >>= (λ l. status_of (some (text (status_text p.status))) >>= (λ s. progress s l)))
      (read_lock-lock_document p.blocked_on lock)
    ∙ (ap (λ r. r >>= (λ s. progress s p.blocked_on)) (status_of-status_text p.status) ∙ valid)
