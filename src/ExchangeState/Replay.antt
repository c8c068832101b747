-- ===== src/ExchangeState/Replay.antt =====
-- src/patchharbor/exchange_state.py: whatever operations follow one another, a package that was once
-- attempted is not started again by itself.
use mathlib.Core.Path.{subst, subst⁻¹}
use mathlib.Core.Option.{or_else}
use patch_harbor.Base.{
  is_some, String, ◌≡◌, ◌≢◌, refl, ◌∙◌, ◌⊎◌, Bool, true, false, Option, none, some, List, arith,
  if◌then◌else◌, All, Result, ok, err, ◌==◌,
}
use patch_harbor.Models.{GitObjectId}
use patch_harbor.ExchangeState.Record.{
  ExchangeFileIdentity, ExchangeStateRecord, ExchangePatchSelection, ExchangeApplyStatus, attempted,
  failed, succeeded, identity_eq,
}
use patch_harbor.ExchangeState.Snapshot.{record_for}
use patch_harbor.ExchangeState.RoundTrip.{IsStorable, IsCommit, AllOf}
use patch_harbor.ExchangeState.File.{Disk, Action, StateError}
use patch_harbor.ExchangeState.Holds.{Holds, Runs, Settles}
use patch_harbor.ExchangeState.Merge.{merge_exchange_classifications}
use patch_harbor.ExchangeState.Attempt.{
  started, mark_exchange_apply_started, mark_exchange_apply_finished,
}
use patch_harbor.ExchangeState.Receipt.{
  record_exchange_result_digest, recover_exchange_apply_finished,
}
use patch_harbor.ExchangeState.MergeLaws.{Merges, merge_exchange_classifications-Runs}
use patch_harbor.ExchangeState.AttemptLaws.{
  ChangedAt, IsReadOnly, Starts, mark_exchange_apply_started-Runs,
}
use patch_harbor.ExchangeState.FinishLaws.{mark_exchange_apply_finished-Runs}
use patch_harbor.ExchangeState.ReceiptLaws.{
  record_exchange_result_digest-Runs, recover_exchange_apply_finished-Runs,
}

-- One call of an operation that changes the ledger. The flag says whether an explicit selection may
-- have started a package in it.
pub data Step (d : Disk) : Bool → Disk → Type 0 where
  merge :
      (pending : List ExchangeStateRecord)
      → All IsStorable pending
      → Step d false (merge_exchange_classifications pending d).1
  start :
      (i : ExchangeFileIdentity) (selection : ExchangePatchSelection) (verify : Action (Unit {0}))
      (retry_failed explicitly_selected : Bool) (run_id : Option String)
      → IsReadOnly verify
      → Step d explicitly_selected
          (mark_exchange_apply_started i selection verify retry_failed explicitly_selected run_id
            d).1
  finish :
      (i : ExchangeFileIdentity) (selection : ExchangePatchSelection) (status : ExchangeApplyStatus)
      (commit : Option GitObjectId) (run_id : Option String)
      → AllOf IsCommit commit
      → Step d false (mark_exchange_apply_finished i selection status commit run_id d).1
  pin :
      (i : ExchangeFileIdentity) (selection : ExchangePatchSelection) (run_id digest : String)
      → Step d false (record_exchange_result_digest i selection run_id digest d).1
  recover :
      (expected : ExchangeStateRecord) (commit : GitObjectId) (verify : Action (Unit {0}))
      → IsCommit commit
      → IsReadOnly verify
      → Step d false (recover_exchange_apply_finished expected commit verify d).1

-- Any sequence of calls.
pub data Reach (d : Disk) : Disk → Type 0 where
  here : Reach d d
  next : {e f : Disk} {explicit : Bool} → Reach d e → Step e explicit f → Reach d f

-- The identity has a record that has crossed the apply-start boundary.
pub record Attempted (i : ExchangeFileIdentity) (s : List ExchangeStateRecord) : Type 0 where
  pub entry : ExchangeStateRecord
  pub found : record_for i s ≡ some entry
  pub crossed : is_some entry.apply_status ≡ true

Attempted-ChangedAt :
    (i j : ExchangeFileIdentity) (after : ExchangeStateRecord) (s t : List ExchangeStateRecord)
    → is_some after.apply_status ≡ true
    → ChangedAt j after s t
    → Attempted i s
    → Attempted i t
Attempted-ChangedAt i j after s t crossed changed a = choose (j == i) (changed i)
  where
    choose :
        (b : Bool) → record_for i t ≡ (if b then some after else record_for i s) → Attempted i t
    choose true e = record { entry = after; found = e; crossed = crossed }
    choose false e = record { entry = a.entry; found = e ∙ a.found; crossed = a.crossed }

Attempted-Merges :
    (i : ExchangeFileIdentity) (pending s returned t : List ExchangeStateRecord)
    → Merges pending s returned t
    → Attempted i s
    → Attempted i t
unfolding or_else
Attempted-Merges i pending s returned t m a = record {
  entry = a.entry;
  found = ground (arith, m.stored i, a.found);
  crossed = a.crossed;
}

-- What a run leaves, if each relation that it may have established keeps `P`.
pub record Leaves (P : List ExchangeStateRecord → Type 0) (d : Disk) : Type 0 where
  pub after : List ExchangeStateRecord
  pub holds : Holds d after
  pub property : P after

pub Leaves-Runs :
    {A : Type 0} (P : List ExchangeStateRecord → Type 0) (R : A → List ExchangeStateRecord → Type 0)
    (s : List ExchangeStateRecord) (o : Result StateError A × Disk)
    → Runs R s o
    → P s
    → ((a : A) (t : List ExchangeStateRecord) → R a t → P t)
    → Leaves P o.1
Leaves-Runs P R s o run p keeps = record {
  after = run.after;
  holds = run.holds;
  property = settle o.0 run.after run.settles;
}
  where
    settle : (r : Result StateError _) (t : List ExchangeStateRecord) → Settles R s r t → P t
    settle (ok a) t q = keeps a t q
    settle (err e) t q = subst⁻¹ P q p

Step-Attempted :
    (i : ExchangeFileIdentity) (s : List ExchangeStateRecord) {d : Disk} {explicit : Bool}
    {e : Disk}
    → Step d explicit e
    → Holds d s
    → Attempted i s
    → Leaves (Attempted i) e
Step-Attempted i s {d} (merge pending storable) h a =
    Leaves-Runs (Attempted i) (Merges pending s) s _
      (merge_exchange_classifications-Runs pending s d h storable) a
      (λ returned t m. Attempted-Merges i pending s returned t m a)
Step-Attempted i s {d} (start j selection verify retry explicit run_id reads) h a =
    Leaves-Runs (Attempted i) _ s _
      (mark_exchange_apply_started-Runs j selection retry explicit run_id s verify d reads h) a
      (λ _ t m. Attempted-ChangedAt i j (started run_id m.before) s t refl m.changed a)
Step-Attempted i s {d} (finish j selection status commit run_id is_commit) h a =
    Leaves-Runs (Attempted i) _ s _
      (mark_exchange_apply_finished-Runs j selection status commit run_id s d is_commit h) a
      (λ _ t m. Attempted-ChangedAt i j _ s t refl m.changed a)
Step-Attempted i s {d} (pin j selection run_id digest) h a =
    Leaves-Runs (Attempted i) _ s _
      (record_exchange_result_digest-Runs j selection run_id digest s d h) a
      (λ _ t m. Attempted-ChangedAt i j _ s t (rw m.active) m.changed a)
Step-Attempted i s {d} (recover expected commit verify is_commit reads) h a =
    Leaves-Runs (Attempted i) _ s _
      (recover_exchange_apply_finished-Runs expected commit is_commit s verify d reads h) a
      (λ _ t m. Attempted-ChangedAt i expected.identity _ s t refl m.changed a)

-- Through any sequence of calls the ledger stays readable with an entry for an identity that was
-- attempted, and the entry stays attempted.
pub Reach-Attempted :
    (i : ExchangeFileIdentity) (s : List ExchangeStateRecord) (d e : Disk)
    → Reach d e
    → Holds d s
    → Attempted i s
    → Leaves (Attempted i) e
Reach-Attempted i s d e here h a = record { after = s; holds = h; property = a }
Reach-Attempted i s d e (next r st) h a =
    let before = Reach-Attempted i s d _ r h a in
    Step-Attempted i before.after st before.holds before.property

-- After an identity was attempted in a ledger that can be read, no sequence of calls, whether they
-- succeed or not, with candidates and commits that have passed their checks and callbacks that change
-- nothing, leads to a ledger in which a plain start of the identity with such a callback, neither a
-- retry nor an explicit selection, succeeds.
pub started_once :
    (i : ExchangeFileIdentity) (s : List ExchangeStateRecord) (d e : Disk)
    (selection : ExchangePatchSelection) (verify : Action (Unit {0})) (run_id : Option String)
    → Holds d s
    → Attempted i s
    → Reach d e
    → IsReadOnly verify
    → (mark_exchange_apply_started i selection verify false false run_id e).0 ≢ ok tt
started_once i s d e selection verify run_id h a r reads success =
    let l = Reach-Attempted i s d e r h a in
    let run =
      mark_exchange_apply_started-Runs i selection false false run_id l.after verify e reads
        l.holds in
    refused l.after l.property run.after (
      subst
        (λ o. Settles (λ _ t. Starts i selection false false run_id l.after t) l.after o run.after)
        success run.settles)
  where
    refused :
        (t : List ExchangeStateRecord)
        → Attempted i t
        → (u : List ExchangeStateRecord) → Starts i selection false false run_id t u
        → ⊥
    refused t a u m = ground (arith, a.found, a.crossed, m.found, m.admitted)

-- Calls of which none selects a package explicitly.
pub data Automatic (d : Disk) : Disk → Type 0 where
  here : Automatic d d
  next : {e f : Disk} → Automatic d e → Step e false f → Automatic d f

-- The identity has this record, which has succeeded.
pub record Succeeded (i : ExchangeFileIdentity) (r : ExchangeStateRecord)
    (s : List ExchangeStateRecord) : Type 0 where
  pub found : record_for i s ≡ some r
  pub done : r.apply_status ≡ some succeeded

Succeeded-ChangedAt :
    (i j : ExchangeFileIdentity) (r before after : ExchangeStateRecord)
    (s t : List ExchangeStateRecord)
    → record_for j s ≡ some before
    → before.apply_status ≢ some succeeded
    → ChangedAt j after s t
    → Succeeded i r s
    → Succeeded i r t
Succeeded-ChangedAt i j r before after s t found differs changed a = record {
  found = ground (arith, changed i, found, differs, a.found, a.done);
  done = a.done;
}

Succeeded-Merges :
    (i : ExchangeFileIdentity) (r : ExchangeStateRecord)
    (pending s returned t : List ExchangeStateRecord)
    → Merges pending s returned t
    → Succeeded i r s
    → Succeeded i r t
unfolding or_else
Succeeded-Merges i r pending s returned t m a = record {
  found = ground (arith, m.stored i, a.found);
  done = a.done;
}

attempted-ne-succeeded :
    (r : ExchangeStateRecord) → r.apply_status ≡ some attempted → r.apply_status ≢ some succeeded
attempted-ne-succeeded r h k = ground arith

startable-ne-succeeded :
    (retry_failed : Bool) (r : ExchangeStateRecord)
    → (r.apply_status ≡ none)
      ⊎ ((retry_failed ≡ true) × (r.apply_status ≡ some failed))
      ⊎ (false ≡ true)
    → r.apply_status ≢ some succeeded
startable-ne-succeeded retry_failed r h k = ground arith

Step-Succeeded :
    (i : ExchangeFileIdentity) (r : ExchangeStateRecord) (s : List ExchangeStateRecord) {d : Disk}
    {explicit : Bool} {e : Disk}
    → Step d explicit e
    → explicit ≡ false
    → Holds d s
    → Succeeded i r s
    → Leaves (Succeeded i r) e
Step-Succeeded i r s {d} (merge pending storable) plain h a =
    Leaves-Runs (Succeeded i r) (Merges pending s) s _
      (merge_exchange_classifications-Runs pending s d h storable) a
      (λ returned t m. Succeeded-Merges i r pending s returned t m a)
Step-Succeeded i r s {d} (start j selection verify retry explicit run_id reads) plain h a =
    Leaves-Runs (Succeeded i r) _ s _
      (mark_exchange_apply_started-Runs j selection retry explicit run_id s verify d reads h) a
      (λ _ t m.
        Succeeded-ChangedAt i j r m.before _ s t m.found
          (startable-ne-succeeded retry m.before (ground (arith, m.admitted, plain))) m.changed a)
Step-Succeeded i r s {d} (finish j selection status commit run_id is_commit) plain h a =
    Leaves-Runs (Succeeded i r) _ s _
      (mark_exchange_apply_finished-Runs j selection status commit run_id s d is_commit h) a
      (λ _ t m.
        Succeeded-ChangedAt i j r m.before _ s t m.found (attempted-ne-succeeded m.before m.active)
          m.changed a)
Step-Succeeded i r s {d} (pin j selection run_id digest) plain h a =
    Leaves-Runs (Succeeded i r) _ s _
      (record_exchange_result_digest-Runs j selection run_id digest s d h) a
      (λ _ t m.
        Succeeded-ChangedAt i j r m.before _ s t m.found (attempted-ne-succeeded m.before m.active)
          m.changed a)
Step-Succeeded i r s {d} (recover expected commit verify is_commit reads) plain h a =
    Leaves-Runs (Succeeded i r) _ s _
      (recover_exchange_apply_finished-Runs expected commit is_commit s verify d reads h) a
      (λ _ t m.
        Succeeded-ChangedAt i expected.identity r expected _ s t m.found
          (attempted-ne-succeeded expected m.active) m.changed a)

-- Once an identity has succeeded in a ledger that can be read, calls that select nothing explicitly,
-- retries of failed attempts included, with candidates and commits that have passed their checks and
-- callbacks that change nothing, leave its whole record as it is.
pub Automatic-Succeeded :
    (i : ExchangeFileIdentity) (r : ExchangeStateRecord) (s : List ExchangeStateRecord) (d e : Disk)
    → Automatic d e
    → Holds d s
    → Succeeded i r s
    → Leaves (Succeeded i r) e
Automatic-Succeeded i r s d e here h a = record { after = s; holds = h; property = a }
Automatic-Succeeded i r s d e (next path st) h a =
    let before = Automatic-Succeeded i r s d _ path h a in
    Step-Succeeded i r before.after st refl before.holds before.property
