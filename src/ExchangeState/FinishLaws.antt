-- ===== src/ExchangeState/FinishLaws.antt =====
-- src/patchharbor/exchange_state.py: what the end of an attempt does to the ledger.
use mathlib.Core.Path.{subst⁻¹}
use patch_harbor.Base.{
  String, ◌≡◌, refl, ◌⊎◌, inl, inr, Bool, true, ◌&&◌, Option, none, some, List, [], ◌∷◌, arith, ok,
  ◌==◌, string_eq, option_eq, contains,
}
use patch_harbor.Models.{GitObjectId}
use patch_harbor.ExchangeState.Record.{
  ExchangeFileIdentity, ExchangeStateRecord, ExchangePatchSelection, ExchangeApplyStatus, attempted,
  failed, succeeded, identity_eq, checked, patch_package, apply_status_eq,
}
use patch_harbor.ExchangeState.Snapshot.{record_for}
use patch_harbor.ExchangeState.RoundTrip.{IsStorable, IsCommit, AllOf}
use patch_harbor.ExchangeState.File.{Disk, load_unlocked}
use patch_harbor.ExchangeState.Holds.{
  Holds, Runs, Runs-raise, Runs-weaken, Runs-bind, Runs-demand, Runs-with_state_lock,
  load_unlocked-Runs,
}
use patch_harbor.ExchangeState.ReviseLaws.{write_revised-Runs}
use patch_harbor.ExchangeState.AttemptLaws.{ChangedAt, Changes-has_identity, is_package_for-eq_true}
use patch_harbor.ExchangeState.Attempt.{
  has_identity, is_package_for, kept_digest, finished, finish_record, mark_exchange_apply_finished,
}

-- The record that was finished was that of the active attempt of the run.
pub record Finishes (i : ExchangeFileIdentity) (selection : ExchangePatchSelection)
    (status : ExchangeApplyStatus) (completed_commit : Option GitObjectId) (run_id : Option String)
    (s t : List ExchangeStateRecord) : Type 0 where
  pub before : ExchangeStateRecord
  pub found : record_for i s ≡ some before
  pub kind : before.kind ≡ patch_package
  pub manifest : before.manifest ≡ some selection
  pub active : before.apply_status ≡ some attempted
  pub run : before.attempt_run_id ≡ run_id
  pub digest : Option String
  pub terminal :
      ((status ≡ failed) × (digest ≡ none))
      ⊎ ((status ≡ succeeded) × (digest ≡ before.result_sha256))
  pub changed :
      ChangedAt i
        (record before {
          apply_status = some status;
          completed_commit = completed_commit;
          result_sha256 = digest;
        })
        s
        t

finished-IsStorable :
    (status : ExchangeApplyStatus) (commit : Option GitObjectId) (r : ExchangeStateRecord)
    → AllOf IsCommit commit
    → checked (finished status commit r) ≡ ok (finished status commit r)
    → IsStorable r
    → IsStorable (finished status commit r)
finished-IsStorable status commit r is_commit valid h = record {
  path = h.path;
  identity = h.identity;
  manifest = h.manifest;
  completed_commit = is_commit;
  valid = valid;
}

both-eq_true : (a b : Bool) → (a && b) ≡ true → (a ≡ true) × (b ≡ true)
both-eq_true a b h = ground arith

-- The result is kept at a success and dropped at a failure.
kept_digest-terminal :
    (status : ExchangeApplyStatus) (digest : Option String)
    → contains (failed ∷ succeeded ∷ []) status ≡ true
    → ((status ≡ failed) × (kept_digest status digest ≡ none))
      ⊎ ((status ≡ succeeded) × (kept_digest status digest ≡ digest))
kept_digest-terminal attempted digest h = ground (arith, h)
kept_digest-terminal failed digest h = inl (refl, refl)
kept_digest-terminal succeeded digest h = inr (refl, refl)

active-eq_true :
    (run_id : Option String) (r : ExchangeStateRecord)
    → (r.apply_status == some attempted && r.attempt_run_id == run_id) ≡ true
    → (r.apply_status ≡ some attempted) × (r.attempt_run_id ≡ run_id)
active-eq_true run_id r h = ground arith

module _ (i : ExchangeFileIdentity) (selection : ExchangePatchSelection)
    (status : ExchangeApplyStatus) (completed_commit : Option GitObjectId) (run_id : Option String)
    (s : List ExchangeStateRecord) where
  abbrev After : Unit {0} → List ExchangeStateRecord → Type 0
  After _ t = Finishes i selection status completed_commit run_id s t

  finish_record-Runs :
      (o : Option ExchangeStateRecord) (d : Disk)
      → contains (failed ∷ succeeded ∷ []) status ≡ true
      → AllOf IsCommit completed_commit
      → record_for i s ≡ o
      → Holds d s
      → Runs After s (finish_record i selection status completed_commit run_id s o d)
  unfolding finish_record
  finish_record-Runs none d terminal is_commit found h = Runs-raise _ d h
  finish_record-Runs (some r) d terminal is_commit found h =
      Runs-demand After s (is_package_for selection r) _ _ d h λ packaged.
        Runs-demand After s (r.apply_status == some attempted && r.attempt_run_id == run_id) _ _ d h
          λ active.
            Runs-weaken _ After s _
              (write_revised-Runs (has_identity i) (finished status completed_commit) s (λ _. refl)
                (λ r _. finished-IsStorable status completed_commit r is_commit) d h)
              λ _ t changes. record {
                before = r;
                found = found;
                kind = (is_package_for-eq_true selection r packaged).0;
                manifest = (is_package_for-eq_true selection r packaged).1;
                active = (active-eq_true run_id r active).0;
                run = (active-eq_true run_id r active).1;
                digest = kept_digest status r.result_sha256;
                terminal = kept_digest-terminal status r.result_sha256 terminal;
                changed =
                    Changes-has_identity i (finished status completed_commit) s t r found changes;
              }

  -- An end of an attempt either raises and leaves the ledger's records as they were, or it has found
  -- a record of the identity that is a package for the selection, attempted by this very run, and
  -- has given it the terminal status and the commit, with its pinned result kept on success only,
  -- and left every other record as it was.
  pub mark_exchange_apply_finished-Runs :
      (d : Disk)
      → AllOf IsCommit completed_commit
      → Holds d s
      → Runs After s (mark_exchange_apply_finished i selection status completed_commit run_id d)
  unfolding mark_exchange_apply_finished
  mark_exchange_apply_finished-Runs d is_commit h =
      Runs-demand After s (contains (failed ∷ succeeded ∷ []) status) _ _ d h λ terminal.
        Runs-with_state_lock After s _ d h (
          Runs-bind After s (λ a. a ≡ s) load_unlocked _ d (load_unlocked-Runs s d h)
            λ a d' e h'.
              subst⁻¹
                (λ x.
                  Runs After s (
                    finish_record i selection status completed_commit run_id x (record_for i x) d'))
                e (finish_record-Runs (record_for i s) d' terminal is_commit refl h'))
