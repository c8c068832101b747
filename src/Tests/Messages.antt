-- ===== src/Tests/Messages.antt =====
-- Runs of the watcher's messages: src/patchharbor_watcher/protocol.py.
use patch_harbor.Base.{ℕ, ◌≡◌, ◌⊎◌, refl, none, some, ok, string_eq, string_discrete}
use patch_harbor.Base.{[], ◌∷◌, nat_eq, option_eq, ℕ_discrete}
use patch_harbor.Watcher.Outcome.{published}
use patch_harbor.Watcher.Contract.{AutomaticApplyResult, automatic_apply_result}
use patch_harbor.Json.{string_or_null, Fields, number, text, object, field, end}
use patch_harbor.Watcher.Protocol.{
  no_candidate, LockReference, repository, Progress, progress, IsProgress, locked, error,
}
use patch_harbor.Watcher.Messages.{
  lock_of_kind, read_progress, progress_document, completion_progress, or_failure,
}
use patch_harbor.Watcher.MessageLaws.{read_progress-progress_document, IsLock}
use patch_harbor.Watcher.Told.{ToldBy, completion_progress-ToldBy}

abbrev lock : LockReference
lock = record { kind = repository; repo_id = some "0c9e2a44-52a3-4ba5-8d6b-5d1f6fb7b1a2" }

abbrev waiting : Progress
waiting = record { status = locked; blocked_on = some lock }

waiting-IsProgress : IsProgress waiting
unfolding progress
waiting-IsProgress = refl

lock-IsLock : IsLock lock
unfolding lock_of_kind string_or_null
lock-IsLock = refl

read_progress-progress_document_example : read_progress (progress_document waiting) ≡ ok waiting
read_progress-progress_document_example =
    read_progress-progress_document waiting waiting-IsProgress lock-IsLock

-- A lock with other fields is refused, and read as an error.
abbrev contradiction : Fields
contradiction =
    field "watcher_progress"
      (object (
        field "version" (number 1)
          (field "status" (text "dry_run") (field "blocked_on" (progress_document waiting) end))))
      end

contradiction_is_error :
    completion_progress (some contradiction) ≡ record { status = error; blocked_on = none }
unfolding completion_progress progress_document string_eq string_discrete
contradiction_is_error = refl

-- The progress of a worker that waits
abbrev response : Fields
response = field "watcher_progress" (progress_document waiting) end

waiting_is_taken : completion_progress (some response) ≡ waiting
unfolding completion_progress progress_document read_progress or_failure progress lock_of_kind
    string_or_null string_eq string_discrete
waiting_is_taken = refl

completion_progress-ToldBy_example :
    ((completion_progress (some response) ≡ record { status = error; blocked_on = none })
      ⊎ ToldBy (some response) (completion_progress (some response)))
    × ((p : Progress) → ToldBy (some response) p → completion_progress (some response) ≡ p)
completion_progress-ToldBy_example = completion_progress-ToldBy (some response)

-- A record that repeats is published once.
repeats_nothing : published {S = ℕ} (1 ∷ 1 ∷ 2 ∷ 2 ∷ 1 ∷ []) none ≡ 1 ∷ 2 ∷ 1 ∷ []
unfolding published nat_eq option_eq ℕ_discrete
repeats_nothing = refl

abbrev idle_result : AutomaticApplyResult
idle_result = record { status = no_candidate; blocked_on = none }

idle_once : automatic_apply_result no_candidate none ≡ ok idle_result
unfolding automatic_apply_result
idle_once = refl
