-- ===== src/ExchangeState/ReceiptLaws.antt =====
-- src/patchharbor/exchange_state.py: what pinning a result and recovering an attempt do to the ledger.
use mathlib.Core.Path.{subst⁻¹}
use patch_harbor.Base.{
  is_some, String, ◌≡◌, refl, ◌⊎◌, true, ◌&&◌, Option, none, some, List, arith, ok, inl, inr, ◌==◌,
  string_eq, option_eq, Option-cases,
}
use patch_harbor.Models.{GitObjectId, is_uuid4}
use patch_harbor.ExchangeState.Record.{
  ExchangeFileIdentity, ExchangeStateRecord, ExchangePatchSelection, attempted, succeeded,
  identity_eq, checked, apply_status_eq, selection_eq, record_eq, is_sha256,
}
use patch_harbor.ExchangeState.Snapshot.{record_for}
use patch_harbor.ExchangeState.RoundTrip.{IsStorable, IsCommit}
use patch_harbor.ExchangeState.File.{Disk, Action, valued, load_unlocked, invalid_value}
use patch_harbor.ExchangeState.Holds.{
  Holds, Runs, Runs-raise, Runs-weaken, Runs-valued, Runs-bind, Runs-demand, Runs-with_state_lock,
  load_unlocked-Runs,
}
use patch_harbor.ExchangeState.ReviseLaws.{Change, Changes, write_revised-Runs, record_for-identity}
use patch_harbor.ExchangeState.AttemptLaws.{ChangedAt, IsReadOnly, Runs-read_only}
use patch_harbor.ExchangeState.Receipt.{
  is_record, is_active_attempt, is_recoverable, same_records, pinned, recovered, pin_record,
  recover_record, prove_and_recover, record_exchange_result_digest, recover_exchange_apply_finished,
}

-- The record itself is compared, and stands at its own identity only.
Changes-is_record :
    (i : ExchangeFileIdentity) (change : Change) (s t : List ExchangeStateRecord)
    (r : ExchangeStateRecord)
    → record_for i s ≡ some r
    → Changes (is_record r) change s tt t
    → ChangedAt i (change r) s t
unfolding is_record
Changes-is_record i change s t r here changes j = elim (Option-cases (record_for j s)) [
  | inl absent ↦ ground (arith, changes j)
  | inr (r', there) ↦
      ground (arith, changes j, record_for-identity j s r' there, record_for-identity i s r here)
]

pub record Pins (i : ExchangeFileIdentity) (selection : ExchangePatchSelection)
    (run_id digest : String) (s t : List ExchangeStateRecord) : Type 0 where
  pub before : ExchangeStateRecord
  pub found : record_for i s ≡ some before
  pub manifest : before.manifest ≡ some selection
  pub active : before.apply_status ≡ some attempted
  pub run : before.attempt_run_id ≡ some run_id
  pub unpinned : (before.result_sha256 ≡ none) ⊎ (before.result_sha256 ≡ some digest)
  pub changed : ChangedAt i (record before { result_sha256 = some digest }) s t

pinned-IsStorable :
    (digest : String) (r : ExchangeStateRecord)
    → checked (pinned digest r) ≡ ok (pinned digest r)
    → IsStorable r
    → IsStorable (pinned digest r)
pinned-IsStorable digest r valid h = record {
  path = h.path;
  identity = h.identity;
  manifest = h.manifest;
  completed_commit = h.completed_commit;
  valid = valid;
}

is_active_attempt-eq_true :
    (selection : ExchangePatchSelection) (run_id digest : String) (r : ExchangeStateRecord)
    → is_active_attempt selection run_id digest r ≡ true
    → (r.manifest ≡ some selection)
      × (r.apply_status ≡ some attempted)
      × (r.attempt_run_id ≡ some run_id)
      × ((r.result_sha256 ≡ none) ⊎ (r.result_sha256 ≡ some digest))
unfolding is_active_attempt
is_active_attempt-eq_true selection run_id digest r h = ground arith

module _ (i : ExchangeFileIdentity) (selection : ExchangePatchSelection) (run_id digest : String)
    (s : List ExchangeStateRecord) where
  abbrev AfterPin : Unit {0} → List ExchangeStateRecord → Type 0
  AfterPin _ t = Pins i selection run_id digest s t

  pin_record-Runs :
      (o : Option ExchangeStateRecord) (d : Disk)
      → record_for i s ≡ o
      → Holds d s
      → Runs AfterPin s (pin_record selection run_id digest s o d)
  unfolding pin_record
  pin_record-Runs none d found h = Runs-raise _ d h
  pin_record-Runs (some r) d found h =
      Runs-demand AfterPin s (is_active_attempt selection run_id digest r) _ _ d h λ active.
        Runs-weaken _ AfterPin s _
          (write_revised-Runs (is_record r) (pinned digest) s (λ _. refl)
            (λ r _. pinned-IsStorable digest r) d h)
          λ _ t changes.
            let a = is_active_attempt-eq_true selection run_id digest r active in
            record {
              before = r;
              found = found;
              manifest = a.0;
              active = a.1;
              run = a.2;
              unpinned = a.3;
              changed = Changes-is_record i (pinned digest) s t r found changes;
            }

  -- Pinning a result either raises and leaves the ledger's records as they were, or it has found a
  -- record of the identity, for the selection and attempted by this very run, with no result or with
  -- the same result pinned, and has pinned this result to it, and left every other record as it was.
  pub record_exchange_result_digest-Runs :
      (d : Disk)
      → Holds d s
      → Runs AfterPin s (record_exchange_result_digest i selection run_id digest d)
  unfolding record_exchange_result_digest
  record_exchange_result_digest-Runs d h =
      Runs-demand AfterPin s (is_sha256 digest && is_uuid4 run_id) _ _ d h λ _.
        Runs-with_state_lock AfterPin s _ d h (
          Runs-bind AfterPin s (λ a. a ≡ s) load_unlocked _ d (load_unlocked-Runs s d h)
            λ a d' e h'.
              subst⁻¹
                (λ x. Runs AfterPin s (pin_record selection run_id digest x (record_for i x) d')) e
                (pin_record-Runs (record_for i s) d' refl h'))

pub record Recovers (expected : ExchangeStateRecord) (commit : GitObjectId)
    (s t : List ExchangeStateRecord) : Type 0 where
  pub found : record_for expected.identity s ≡ some expected
  pub active : expected.apply_status ≡ some attempted
  pub identified : is_some expected.attempt_run_id ≡ true
  pub pinned_result : is_some expected.result_sha256 ≡ true
  pub changed :
      ChangedAt expected.identity
        (record expected { apply_status = some succeeded; completed_commit = some commit })
        s
        t

recovered-IsStorable :
    (commit : GitObjectId) (r : ExchangeStateRecord)
    → IsCommit commit
    → checked (recovered commit r) ≡ ok (recovered commit r)
    → IsStorable r
    → IsStorable (recovered commit r)
recovered-IsStorable commit r is_commit valid h = record {
  path = h.path;
  identity = h.identity;
  manifest = h.manifest;
  completed_commit = is_commit;
  valid = valid;
}

is_recoverable-eq_true :
    (r : ExchangeStateRecord)
    → is_recoverable r ≡ true
    → (r.apply_status ≡ some attempted)
      × (is_some r.attempt_run_id ≡ true)
      × (is_some r.result_sha256 ≡ true)
unfolding is_recoverable
is_recoverable-eq_true r h = ground arith

found-eq_true :
    (o : Option ExchangeStateRecord) (r : ExchangeStateRecord) → (o == some r) ≡ true → o ≡ some r
found-eq_true o r h = ground arith

module _ (expected : ExchangeStateRecord) (commit : GitObjectId) (is_commit : IsCommit commit)
    (s : List ExchangeStateRecord) where
  abbrev AfterRecovery : Unit {0} → List ExchangeStateRecord → Type 0
  AfterRecovery _ t = Recovers expected commit s t

  recover_record-Runs :
      (d : Disk)
      → is_recoverable expected ≡ true
      → record_for expected.identity s ≡ some expected
      → Holds d s
      → Runs AfterRecovery s (recover_record expected commit s d)
  unfolding recover_record
  recover_record-Runs d recoverable found h =
      Runs-bind AfterRecovery s (λ _. Unit {0})
        (valued invalid_value (checked (recovered commit expected))) _ d
        (Runs-valued s invalid_value (checked (recovered commit expected)) d h)
        λ _ d' _ h'.
          Runs-weaken _ AfterRecovery s _
            (write_revised-Runs (is_record expected) (recovered commit) s (λ _. refl)
              (λ r _. recovered-IsStorable commit r is_commit) d' h')
            λ _ t changes. record {
              found = found;
              active = (is_recoverable-eq_true expected recoverable).0;
              identified = (is_recoverable-eq_true expected recoverable).1;
              pinned_result = (is_recoverable-eq_true expected recoverable).2;
              changed =
                  Changes-is_record expected.identity (recovered commit) s t expected found changes;
            }

  prove_and_recover-Runs :
      (verify_evidence : Action (Unit {0})) (d : Disk)
      → is_recoverable expected ≡ true
      → IsReadOnly verify_evidence
      → Holds d s
      → Runs AfterRecovery s (prove_and_recover expected commit verify_evidence s d)
  unfolding prove_and_recover
  prove_and_recover-Runs verify_evidence d recoverable reads h =
      Runs-demand AfterRecovery s (record_for expected.identity s == some expected) _ _ d h λ found.
        Runs-bind AfterRecovery s (λ _. Unit {0}) verify_evidence _ d
          (Runs-read_only verify_evidence s d reads h)
          λ _ d₁ _ h₁.
            Runs-bind AfterRecovery s (λ a. a ≡ s) load_unlocked _ d₁ (load_unlocked-Runs s d₁ h₁)
              λ again d₂ _ h₂. Runs-demand AfterRecovery s (same_records again s) _ _ d₂ h₂ λ _.
                recover_record-Runs d₂ recoverable
                  (found-eq_true (record_for expected.identity s) expected found) h₂

  -- A recovery either raises and leaves the ledger's records as they were, or the expected record was
  -- in the ledger, attempted under a run ID and with a pinned result, and it is now succeeded at the
  -- commit, with the same run ID and result, and every other record is as it was.
  pub recover_exchange_apply_finished-Runs :
      (verify_evidence : Action (Unit {0})) (d : Disk)
      → IsReadOnly verify_evidence
      → Holds d s
      → Runs AfterRecovery s (recover_exchange_apply_finished expected commit verify_evidence d)
  unfolding recover_exchange_apply_finished prove_and_recover
  recover_exchange_apply_finished-Runs verify_evidence d reads h =
      Runs-demand AfterRecovery s (is_recoverable expected) _ _ d h λ recoverable.
        Runs-with_state_lock AfterRecovery s _ d h (
          Runs-bind AfterRecovery s (λ a. a ≡ s) load_unlocked _ d (load_unlocked-Runs s d h)
            λ a d' e h'.
              subst⁻¹
                (λ x. Runs AfterRecovery s (prove_and_recover expected commit verify_evidence x d'))
                e (prove_and_recover-Runs verify_evidence d' recoverable reads h'))
