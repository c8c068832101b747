-- ===== src/Watcher/Outcome.antt =====
-- src/patchharbor_watcher/loop.py: the outcome of a worker, and which outcomes are published.
use patch_harbor.Base.{
  ◌≡◌, refl, ◌≢◌, Bool, true, false, ◌&&◌, not, Option, none, some, ◌=ℕ◌, if◌then◌else◌, Eq, ◌==◌,
  string_eq, List, [], ◌∷◌, option_eq, arith,
}
use patch_harbor.Json.{Json, boolean, number, whole_float, text, Fields, get}
use patch_harbor.Status.Codes.{ProcessStatus, exited, signalled}
use patch_harbor.Watcher.Protocol.{Status, no_candidate, was_attempted}
use patch_harbor.Watcher.Messages.{completion_progress}

pub data WatcherPollOutcome : Type 0 where
  idle applied failed : WatcherPollOutcome

-- The fields of `ApplyCompletion` that the outcome depends on.
pub record ApplyCompletion : Type 0 where
  pub process_exit_code : ProcessStatus
  pub apply_result : Option Fields

-- `value == 0` in Python, which `False` and `0.0` pass.
unfoldable pub equals_zero : Option Json → Bool
equals_zero (some (number n)) = n =ℕ 0
equals_zero (some (whole_float n)) = n =ℕ 0
equals_zero (some (boolean b)) = not b
equals_zero _ = false

unfoldable pub is_true : Option Json → Bool
is_true (some (boolean b)) = b
is_true _ = false

unfoldable pub is_apply : Option Json → Bool
is_apply (some (text command)) = command == "apply"
is_apply _ = false

abbrev pub has_exited : ProcessStatus → Bool
has_exited (exited code) = code =ℕ 0
has_exited (signalled code) = false

unfoldable pub response_is_success : Option Fields → Bool
unfolding get equals_zero is_true is_apply
response_is_success none = false
response_is_success (some fs) =
    is_apply (get fs "command")
    && is_true (get fs "success")
    && equals_zero (get fs "process_exit_code")

unfoldable pub outcome_of : Status → Bool → WatcherPollOutcome
outcome_of was_attempted true = applied
outcome_of no_candidate _ = idle
outcome_of _ _ = failed

-- `_shared_poll_outcome`
unfoldable pub shared_poll_outcome : ApplyCompletion → WatcherPollOutcome
unfolding completion_progress response_is_success outcome_of
shared_poll_outcome c =
    outcome_of (completion_progress c.apply_result).status
      (has_exited c.process_exit_code && response_is_success c.apply_result)

-- `SharedWatcherEventState.should_publish`: the answer and the last signature afterwards.
unfoldable pub should_publish {ℓ} : {S : Type ℓ} ⦃e : Eq S⦄ → S → Option S → Bool × Option S
should_publish signature last_signature =
    if some signature == last_signature then (false, last_signature) else (true, some signature)

unfoldable pub published {ℓ} : {S : Type ℓ} ⦃e : Eq S⦄ → List S → Option S → List S
unfolding should_publish
published [] last = []
published (s ∷ ss) last =
    let step = should_publish s last in
    let rest = published ss step.1 in if step.0 then s ∷ rest else rest

-- No two neighbours are the same, and the first is not the one before.
abbrev pub HasNoRepeat {ℓ} : {S : Type ℓ} → Option S → List S → Type ℓ
HasNoRepeat last [] = Unit
HasNoRepeat last (s ∷ ss) = (some s ≢ last) × HasNoRepeat (some s) ss

differs {ℓ} :
    {S : Type ℓ} ⦃e : Eq S⦄ (s : S) (last : Option S) → some s == last ≡ false → some s ≢ last
differs s last h = ground (arith, h)

-- Of the signatures that follow one another, those are published that differ from the one before: no
-- record repeats the last one that was published.
pub published-HasNoRepeat {ℓ} :
    {S : Type ℓ} ⦃e : Eq S⦄ (signatures : List S) (last : Option S)
    → HasNoRepeat last (published signatures last)
unfolding published should_publish
published-HasNoRepeat {S} [] last = tt
published-HasNoRepeat {S} (s ∷ ss) last =
    split (some s == last) (differs s last) (published-HasNoRepeat ss last)
      (published-HasNoRepeat ss (some s))
  where
    split :
        (b : Bool)
        → (b ≡ false → some s ≢ last)
        → HasNoRepeat last (published ss last)
        → HasNoRepeat (some s) (published ss (some s))
        → HasNoRepeat last (
            let step : Bool × Option S = if b then (false, last) else (true, some s) in
            let rest = published ss step.1 in if step.0 then s ∷ rest else rest)
    split true apart skipped shown = skipped
    split false apart skipped shown = (apart refl, shown)
