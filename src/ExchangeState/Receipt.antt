-- ===== src/ExchangeState/Receipt.antt =====
-- src/patchharbor/exchange_state.py: pinning the result of an attempt, and the recovery of a proven one.
use patch_harbor.Base.{
  is_some, String, Bool, true, false, ◌&&◌, Option, none, some, List, [], ◌∷◌, ◌==◌, contains,
  string_eq, option_eq,
}
use patch_harbor.Models.{GitObjectId, is_uuid4}
use patch_harbor.ExchangeState.Record.{
  attempted, succeeded, ExchangeFileIdentity, ExchangePatchSelection, ExchangeStateRecord, checked,
  identity_eq, selection_eq, apply_status_eq, record_eq, is_sha256,
}
use patch_harbor.ExchangeState.Snapshot.{record_for}
use patch_harbor.ExchangeState.File.{
  Action, ◌>>=◌, ◌>>◌, raise, valued, demand, with_state_lock, load_unlocked, invalid_value,
  foreign_result, not_recoverable, attempt_changed, changed_during_proof,
}
use patch_harbor.ExchangeState.Attempt.{write_revised}

-- `record.result_sha256 in {None, result_sha256}` and the other tests on the active attempt
unfoldable pub is_active_attempt :
    ExchangePatchSelection → String → String → ExchangeStateRecord → Bool
is_active_attempt selection run_id digest r =
    r.manifest == some selection
    && r.apply_status == some attempted
    && r.attempt_run_id == some run_id
    && contains (none ∷ some digest ∷ []) r.result_sha256

unfoldable pub is_record : ExchangeStateRecord → ExchangeStateRecord → Bool
is_record expected item = item == expected

abbrev pub pinned : String → ExchangeStateRecord → ExchangeStateRecord
pinned digest r = record r { result_sha256 = some digest }

unfoldable pub pin_record :
    ExchangePatchSelection
    → String
    → String
    → List ExchangeStateRecord
    → Option ExchangeStateRecord
    → Action (Unit {0})
unfolding is_active_attempt write_revised is_record ◌>>=◌
pin_record selection run_id digest current none = raise foreign_result
pin_record selection run_id digest current (some r) = do
  demand (is_active_attempt selection run_id digest r) foreign_result
  write_revised (is_record r) (pinned digest) current

-- `record_exchange_result_digest`
unfoldable pub record_exchange_result_digest :
    ExchangeFileIdentity → ExchangePatchSelection → String → String → Action (Unit {0})
unfolding is_sha256 is_uuid4 with_state_lock load_unlocked pin_record record_for ◌>>=◌
record_exchange_result_digest identity selection run_id digest = do
  demand (is_sha256 digest && is_uuid4 run_id) invalid_value
  with_state_lock do
    current ← load_unlocked
    pin_record selection run_id digest current (record_for identity current)

abbrev pub recovered : GitObjectId → ExchangeStateRecord → ExchangeStateRecord
recovered completed_commit r = record r {
  apply_status = some succeeded;
  completed_commit = some completed_commit;
}

unfoldable pub is_recoverable : ExchangeStateRecord → Bool
is_recoverable r =
    r.apply_status == some attempted && is_some r.attempt_run_id && is_some r.result_sha256

unfoldable pub same_records : List ExchangeStateRecord → List ExchangeStateRecord → Bool
same_records [] [] = true
same_records (r ∷ rs) (s ∷ ss) = r == s && same_records rs ss
same_records _ _ = false

-- `replace(expected, …)` is built before the records are walked.
unfoldable pub recover_record :
    ExchangeStateRecord → GitObjectId → List ExchangeStateRecord → Action (Unit {0})
unfolding checked write_revised is_record ◌>>=◌
recover_record expected completed_commit current = do
  _ ← valued invalid_value (checked (recovered completed_commit expected))
  write_revised (is_record expected) (recovered completed_commit) current

-- What is done with the records that were loaded under the lock.
unfoldable pub prove_and_recover :
    ExchangeStateRecord
    → GitObjectId
    → Action (Unit {0})
    → List ExchangeStateRecord
    → Action (Unit {0})
unfolding record_for load_unlocked same_records recover_record ◌>>=◌
prove_and_recover expected completed_commit verify_evidence current = do
  demand (record_for expected.identity current == some expected) attempt_changed
  verify_evidence
  again ← load_unlocked
  demand (same_records again current) changed_during_proof
  recover_record expected completed_commit current

-- `recover_exchange_apply_finished`
unfoldable pub recover_exchange_apply_finished :
    ExchangeStateRecord → GitObjectId → Action (Unit {0}) → Action (Unit {0})
unfolding is_recoverable with_state_lock load_unlocked prove_and_recover ◌>>=◌
recover_exchange_apply_finished expected completed_commit verify_evidence = do
  demand (is_recoverable expected) not_recoverable
  with_state_lock do
    current ← load_unlocked
    prove_and_recover expected completed_commit verify_evidence current
