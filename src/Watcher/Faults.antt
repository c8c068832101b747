-- ===== src/Watcher/Faults.antt =====
-- src/patchharbor_watcher/loop.py and scheduling.py: in no run of the loop does the schedule raise.
use mathlib.Core.Path.{subst}
use mathlib.Core.Option.{some-injective}
use patch_harbor.Base.{
  ap, ◌∙◌, ℕ, ◌≡◌, refl, sym, Bool, true, none, some, List, [], ◌∷◌, arith, is_some, On,
}
use patch_harbor.Watcher.Protocol.{LockReference}
use patch_harbor.Watcher.Schedule.{
  PendingRoot, Roots, ready, begin, probe_due, add_once, probes_loop, probes, deadline, earliest,
  timeout,
}
use patch_harbor.Watcher.Loop.{
  Watch, initial, Step, Reach, here, next, refresh, accept, launch, complete, probe, give_up,
  outstanding,
}
use patch_harbor.Watcher.Soundness.{
  IsSound, AreSound, AreSound-changed, AreSound-replace, AreSound-probed, AreSound-probe_failed,
}
use patch_harbor.Watcher.Finish.{AreSound-finish}
use patch_harbor.Watcher.Launch.{begin-Begun}

AreSound-none :
    (w : Watch)
    → w.running ≡ none
    → AreSound w.schedule (outstanding w.running)
    → AreSound w.schedule []
AreSound-none w idle h = subst (λ o. AreSound w.schedule (outstanding o)) idle h

pub Step-AreSound :
    (w : Watch) {takes : Bool} {v : Watch}
    → Step w takes v
    → AreSound w.schedule (outstanding w.running)
    → AreSound v.schedule (outstanding v.running)
Step-AreSound w (refresh targets now) h =
    AreSound-replace targets now w.schedule (outstanding w.running) h
Step-AreSound w (accept directory now) h =
    AreSound-changed directory now w.schedule (outstanding w.running) h
Step-AreSound w (launch now snapshot s idle some_ready begun) h =
    let b = begin-Begun now w.schedule (AreSound-none w idle h) in
    subst (λ q. AreSound q.1 q.0) (some-injective _ _ (sym b.result ∙ begun)) b.sound
Step-AreSound w (complete snapshot p now running valid) h =
    AreSound-finish snapshot p now w.schedule valid
      (subst (λ o. AreSound w.schedule (outstanding o)) running h)
Step-AreSound w (probe lock blocked_on now idle) h =
    AreSound-probed lock blocked_on now w.schedule (outstanding w.running) h
Step-AreSound w (give_up lock idle) h =
    AreSound-probe_failed lock w.schedule (outstanding w.running) h

pub Reach-AreSound : (w : Watch) → Reach initial w → AreSound w.schedule (outstanding w.running)
Reach-AreSound w here = record { unique = tt; roots = tt; free = tt; started = tt }
Reach-AreSound w (next r st) = Step-AreSound _ st (Reach-AreSound _ r)

probe_due-some :
    (now : ℕ) (r : PendingRoot)
    → is_some r.lock ≡ is_some r.probe_at
    → is_some (probe_due now r) ≡ true
unfolding probe_due
probe_due-some now r h = ground (arith, h)

probes_loop-some :
    (now n : ℕ) (rs : Roots) (seen : List LockReference)
    → On (IsSound n) rs
    → is_some (probes_loop now rs seen) ≡ true
unfolding probes_loop
probes_loop-some now n [] seen h = refl
probes_loop-some now n ((d, r) ∷ rs) seen h =
    (elim (probe_due now r)
        as (λ o.
          is_some o ≡ true
          → is_some (elim o [ none ↦ none | some found ↦ probes_loop now rs (add_once found seen) ])
            ≡ true) [
              | none ↦ λ is. ground (arith, is)
              | some found ↦ λ is. probes_loop-some now n rs (add_once found seen) h.1
            ])
      (probe_due-some now r h.0.timed)

earliest-some : (n : ℕ) (rs : Roots) → On (IsSound n) rs → is_some (earliest rs) ≡ true
unfolding earliest deadline
earliest-some n [] h = refl
earliest-some n ((d, r) ∷ rs) h = ground (arith, earliest-some n rs h.1, h.0.timed)

-- In every state that the loop reaches between workers, the schedule names the due probes and the time
-- to wait without a `TypeError`, and starts a worker on the ready roots without a `KeyError`.
pub never_raises :
    (w : Watch) (now : ℕ)
    → Reach initial w
    → w.running ≡ none
    → (is_some (probes now w.schedule) ≡ true)
      × ((is_some (timeout now w.schedule) ≡ true)
          × (is_some (begin (ready now w.schedule) w.schedule) ≡ true))
unfolding probes timeout
never_raises w now r idle =
    let h = Reach-AreSound w r in
    (
      probes_loop-some now w.schedule.generation w.schedule.roots [] h.roots,
      (
        ground (arith, earliest-some w.schedule.generation w.schedule.roots h.roots),
        ap is_some (begin-Begun now w.schedule (AreSound-none w idle h)).result,
      ),
    )
