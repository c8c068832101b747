-- ===== src/ExchangeState/AttemptLaws.antt =====
-- src/patchharbor/exchange_state.py: what the start and the end of an attempt do to the ledger.
use mathlib.Core.Path.{subst⁻¹}
use patch_harbor.Base.{
  String, ◌≡◌, refl, ◌⊎◌, Bool, true, Option, none, some, List, arith, if◌then◌else◌, Result, ok,
  err, Option-cases, inl, inr, ◌==◌, string_eq, option_eq,
}
use patch_harbor.ExchangeState.Record.{
  ExchangeFileIdentity, ExchangeStateRecord, ExchangePatchSelection, ExchangeApplyStatus, attempted,
  failed, identity_eq, checked, patch_package, selection_eq, apply_status_eq,
}
use patch_harbor.ExchangeState.Snapshot.{record_for}
use patch_harbor.ExchangeState.RoundTrip.{IsStorable}
use patch_harbor.ExchangeState.File.{Disk, Action, StateError, load_unlocked}
use patch_harbor.ExchangeState.Holds.{
  Holds, Runs, Runs-raise, Runs-weaken, Runs-bind, Runs-demand, Runs-with_state_lock,
  load_unlocked-Runs, Kept, Settles,
}
use patch_harbor.ExchangeState.ReviseLaws.{Change, Changes, write_revised-Runs, record_for-identity}
use patch_harbor.ExchangeState.Attempt.{
  has_identity, is_package_for, admits_start, started, start_record, mark_exchange_apply_started,
}

-- A callback that reads, and writes nothing.
abbrev pub IsReadOnly : {A : Type 0} → Action A → Type 0
IsReadOnly m = (d : Disk) → (m d).1 ≡ d

pub Runs-read_only :
    (m : Action (Unit {0})) (s : List ExchangeStateRecord) (d : Disk)
    → IsReadOnly m
    → Holds d s
    → Runs (Kept s) s (m d)
Runs-read_only m s d reads h = record {
  after = s;
  holds = subst⁻¹ (λ x. Holds x s) (reads d) h;
  settles = settled (m d).0;
}
  where
    settled : (r : Result StateError (Unit {0})) → Settles (Kept s) s r s
    settled (ok a) = (refl, tt)
    settled (err e) = refl

-- Only the record of the identity `i` has changed.
abbrev pub ChangedAt :
    ExchangeFileIdentity
    → ExchangeStateRecord
    → List ExchangeStateRecord
    → List ExchangeStateRecord
    → Type 0
ChangedAt i after s t =
    (j : ExchangeFileIdentity) → record_for j t ≡ (if i == j then some after else record_for j s)

pub Changes-has_identity :
    (i : ExchangeFileIdentity) (change : Change) (s t : List ExchangeStateRecord)
    (r : ExchangeStateRecord)
    → record_for i s ≡ some r
    → Changes (has_identity i) change s tt t
    → ChangedAt i (change r) s t
unfolding has_identity
Changes-has_identity i change s t r here changes j = elim (Option-cases (record_for j s)) [
  | inl absent ↦ ground (arith, changes j)
  | inr (r', there) ↦ ground (arith, changes j, record_for-identity j s r' there)
]

-- The record that was started was that of a package for the selection, and was not attempted
-- before, or its failed attempt was to be tried again, or it was selected explicitly.
pub record Starts (i : ExchangeFileIdentity) (selection : ExchangePatchSelection)
    (retry_failed explicitly_selected : Bool) (run_id : Option String)
    (s t : List ExchangeStateRecord) : Type 0 where
  pub before : ExchangeStateRecord
  pub found : record_for i s ≡ some before
  pub kind : before.kind ≡ patch_package
  pub manifest : before.manifest ≡ some selection
  pub admitted :
      (before.apply_status ≡ none)
      ⊎ ((retry_failed ≡ true) × (before.apply_status ≡ some failed))
      ⊎ (explicitly_selected ≡ true)
  pub changed :
      ChangedAt i
        (record before {
          apply_status = some attempted;
          completed_commit = none;
          attempt_run_id = run_id;
          result_sha256 = none;
        })
        s
        t

started-IsStorable :
    (run_id : Option String) (r : ExchangeStateRecord)
    → checked (started run_id r) ≡ ok (started run_id r)
    → IsStorable r
    → IsStorable (started run_id r)
started-IsStorable run_id r valid h = record {
  path = h.path;
  identity = h.identity;
  manifest = h.manifest;
  completed_commit = tt;
  valid = valid;
}

pub is_package_for-eq_true :
    (selection : ExchangePatchSelection) (r : ExchangeStateRecord)
    → is_package_for selection r ≡ true
    → (r.kind ≡ patch_package) × (r.manifest ≡ some selection)
unfolding is_package_for option_eq
is_package_for-eq_true selection r h = ground arith

admits_start-eq_true :
    (retry_failed explicitly_selected : Bool) (status : Option ExchangeApplyStatus)
    → admits_start retry_failed explicitly_selected status ≡ true
    → (status ≡ none)
      ⊎ ((retry_failed ≡ true) × (status ≡ some failed))
      ⊎ (explicitly_selected ≡ true)
unfolding admits_start
admits_start-eq_true retry_failed explicitly_selected status h = ground arith

module _ (i : ExchangeFileIdentity) (selection : ExchangePatchSelection)
    (retry_failed explicitly_selected : Bool) (run_id : Option String)
    (s : List ExchangeStateRecord) where
  start_record-Runs :
      (o : Option ExchangeStateRecord) (d : Disk)
      → record_for i s ≡ o
      → Holds d s
      → Runs
          (λ _ t. Starts i selection retry_failed explicitly_selected run_id s t)
          s
          (start_record i selection retry_failed explicitly_selected run_id s o d)
  unfolding start_record
  start_record-Runs none d found h = Runs-raise _ d h
  start_record-Runs (some r) d found h =
      let R = λ (_ : Unit {0}) (t : List ExchangeStateRecord).
        Starts i selection retry_failed explicitly_selected run_id s t in
      Runs-demand R s (is_package_for selection r) _ _ d h λ packaged.
        Runs-demand R s (admits_start retry_failed explicitly_selected r.apply_status) _ _ d h
          λ admitted.
            Runs-weaken _ R s _
              (write_revised-Runs (has_identity i) (started run_id) s (λ _. refl)
                (λ r _. started-IsStorable run_id r) d h)
              λ _ t changes. record {
                before = r;
                found = found;
                kind = (is_package_for-eq_true selection r packaged).0;
                manifest = (is_package_for-eq_true selection r packaged).1;
                admitted =
                    admits_start-eq_true retry_failed explicitly_selected r.apply_status admitted;
                changed = Changes-has_identity i (started run_id) s t r found changes;
              }

  -- A start either raises and leaves the ledger's records as they were, or it has found a record of
  -- the identity that is a package for the selection and may start, and has made it attempted under
  -- the run ID, without a commit or a result, and left every other record as it was.
  pub mark_exchange_apply_started-Runs :
      (verify_identity : Action (Unit {0})) (d : Disk)
      → IsReadOnly verify_identity
      → Holds d s
      → Runs
          (λ _ t. Starts i selection retry_failed explicitly_selected run_id s t)
          s
          (mark_exchange_apply_started i selection verify_identity retry_failed explicitly_selected
            run_id d)
  unfolding mark_exchange_apply_started
  mark_exchange_apply_started-Runs verify_identity d reads h =
      let R = λ (_ : Unit {0}) (t : List ExchangeStateRecord).
        Starts i selection retry_failed explicitly_selected run_id s t in
      Runs-with_state_lock R s _ d h (
        Runs-bind R s (λ _. Unit {0}) verify_identity _ d
          (Runs-read_only verify_identity s d reads h)
          λ _ d' _ h'.
            Runs-bind R s (λ a. a ≡ s) load_unlocked _ d' (load_unlocked-Runs s d' h')
              λ a d'' e h''.
                subst⁻¹
                  (λ x. Runs R s (
                    start_record i selection retry_failed explicitly_selected run_id x
                      (record_for i x) d''))
                  e (start_record-Runs (record_for i s) d'' refl h''))
