-- ===== src/Watcher/Kept.antt =====
-- src/patchharbor_watcher/scheduling.py: a change is not lost to a worker that started before it.
use mathlib.Core.Path.{subst, subst⁻¹}
use mathlib.Core.Option.{some-injective}
use patch_harbor.Base.{
  ap, ◌∙◌, ◌≢◌, inl, inr, ℕ, String, ◌≡◌, refl, sym, ◌+◌, ◌≤◌, true, false, Option, none, some, [],
  ◌∷◌, arith, if◌then◌else◌, ◌==◌, string_eq, nat_eq, Option-cases, adjust, lookup, lookup-adjust,
  is_some, On, On-implies, On-adjust, On-lookup, IsUnique-Held, IsUnique-adjust, same-key_refl,
}
use patch_harbor.Watcher.Protocol.{
  LockReference, ExchangeWatchTarget, Status, no_candidate, was_attempted, locked, dry_run, error,
  Progress, watch_target_eq,
}
use patch_harbor.Watcher.Schedule.{
  PendingRoot, Schedule, Snapshot, touched, changed, settle_root, finish_root, finish, probed_root,
  probed, relock,
}
use patch_harbor.Watcher.Loop.{
  Watch, initial, Step, Reach, accept, complete, probe, Waits, still, wait, outstanding,
}
use patch_harbor.Watcher.Roots.{lookup-on_roots, On-on_roots}
use patch_harbor.Watcher.Soundness.{AreSound, probed_root-cases, relock-generation}
use patch_harbor.Watcher.Faults.{Reach-AreSound, Step-AreSound}

-- The work of a directory that no outstanding entry can clean.
abbrev Stays : String → Snapshot → String → PendingRoot → Type 0
Stays d running k r = k ≡ d → (r.dirty ≡ true) × On (λ j e. j ≡ k → r.generation ≢ e.1) running

record Pending (d : String) (s : Schedule) (running : Snapshot) : Type 0 where
  known : is_some (lookup d s.roots) ≡ true
  stays : On (Stays d running) s.roots

touched-Stays :
    (d : String) (n now : ℕ) (running : Snapshot) (k : String) (r : PendingRoot)
    → On (λ j e. e.1 ≤ n) running
    → Stays d running k (touched (n + 1) now r)
touched-Stays d n now running k r old same =
    (refl, On-implies (λ j e. e.1 ≤ n) _ (λ j e h _ young. omega (arith, h, young)) running old)

Pending-changed :
    (d directory : String) (now : ℕ) (s : Schedule) (running : Snapshot)
    → On (λ j e. e.1 ≤ s.generation) running
    → Pending d s running
    → Pending d (changed directory now s) running
unfolding changed
Pending-changed d directory now s running old h =
    elim (lookup directory s.roots)
      as (λ o.
        Pending d
          (elim o [
            | none ↦ s
            | some _ ↦ record {
              generation = s.generation + 1;
              roots = adjust directory (touched (s.generation + 1) now) s.roots;
            }
          ])
          running) [
            | none ↦ h
            | some _ ↦ record {
              known = ground (
                arith,
                h.known,
                lookup-adjust d directory (touched (s.generation + 1) now) s.roots,
              );
              stays =
                  On-adjust (Stays d running) (Stays d running) directory _ (λ k r q. q)
                    (λ k same r q. touched-Stays d s.generation now running k r old) s.roots
                    h.stays;
            }
          ]

settle_root-keeps_dirty :
    (status : Status) (b : Option LockReference) (now g : ℕ) (r : PendingRoot)
    → r.dirty ≡ true
    → r.generation ≢ g
    → let q = settle_root (record { status = status; blocked_on = b }) now g r in
      (q.dirty ≡ true) × (q.generation ≡ r.generation)
unfolding settle_root
settle_root-keeps_dirty locked b now g r h young = (refl, refl)
settle_root-keeps_dirty was_attempted b now g r h young = (refl, refl)
settle_root-keeps_dirty no_candidate b now g r h young = (ground arith, ground arith)
settle_root-keeps_dirty dry_run b now g r h young = (ground arith, ground arith)
settle_root-keeps_dirty error b now g r h young = (ground arith, ground arith)

finish_root-Stays :
    (d : String) (p : Progress) (now : ℕ) (target : ExchangeWatchTarget) (g : ℕ) (rest : Snapshot)
    (directory k : String) (r : PendingRoot)
    → k ≡ directory
    → Stays d ((directory, (target, g)) ∷ rest) k r
    → Stays d rest k (finish_root p now target g r)
unfolding finish_root
finish_root-Stays d p now target g rest directory k r same h =
    elim (r.target == target) as (λ b. Stays d rest k (if b then settle_root p now g r else r)) [
      | true ↦ λ named.
          let keeps =
            settle_root-keeps_dirty p.status p.blocked_on now g r (h named).0
              ((h named).1.0 (sym same)) in
          (
            keeps.0,
            On-implies _ _ (λ j e differ at young. differ at (sym keeps.1 ∙ young)) rest
                (h named).1.1,
          )
      | false ↦ λ named. ((h named).0, (h named).1.1)
    ]

Pending-finish :
    (d : String) (snapshot : Snapshot) (p : Progress) (now : ℕ) (s : Schedule)
    → Pending d s snapshot
    → Pending d (finish snapshot p now s) []
unfolding finish
Pending-finish d [] p now s h = h
Pending-finish d ((directory, (target, g)) ∷ rest) p now s h =
    Pending-finish d rest p now _ (record {
      known =
          ground (arith, h.known, lookup-adjust d directory (finish_root p now target g) s.roots);
      stays =
          On-adjust (Stays d ((directory, (target, g)) ∷ rest)) (Stays d rest) directory
            (finish_root p now target g) (λ k r q named. ((q named).0, (q named).1.1))
            (λ k same r q. finish_root-Stays d p now target g rest directory k r same q) s.roots
            h.stays;
    })

relock-dirty :
    (blocked_on : Option LockReference) (now : ℕ) (r : PendingRoot)
    → (relock blocked_on now r).dirty ≡ r.dirty
unfolding relock
relock-dirty none now r = refl
relock-dirty (some l) now r = refl

probed_root-same :
    (l : LockReference) (blocked_on : Option LockReference) (now : ℕ) (r : PendingRoot)
    → ((probed_root l blocked_on now r).dirty ≡ r.dirty)
      × ((probed_root l blocked_on now r).generation ≡ r.generation)
probed_root-same l blocked_on now r = elim (probed_root-cases l blocked_on now r) [
  | inl same ↦ (ap (λ q. q.dirty) same, ap (λ q. q.generation) same)
  | inr c ↦ (
    ap (λ q. q.dirty) c.1 ∙ relock-dirty blocked_on now r,
    ap (λ q. q.generation) c.1 ∙ relock-generation blocked_on now r,
  )
]

Pending-probed :
    (d : String) (l : LockReference) (blocked_on : Option LockReference) (now : ℕ) (s : Schedule)
    (running : Snapshot)
    → Pending d s running
    → Pending d (probed l blocked_on now s) running
unfolding probed
Pending-probed d l blocked_on now s running h = record {
  known = ground (arith, h.known, lookup-on_roots d (probed_root l blocked_on now) s.roots);
  stays =
      On-on_roots _ _ (probed_root l blocked_on now)
        (λ k r q named.
          let same = probed_root-same l blocked_on now r in
          (
            same.0 ∙ (q named).0,
            On-implies _ _ (λ j e differ at young. differ at (sym same.1 ∙ young)) running
                (q named).1,
          ))
        s.roots h.stays;
}

Step-Pending :
    (d : String) (w : Watch) {v : Watch}
    → Step w false v
    → AreSound w.schedule (outstanding w.running)
    → Pending d w.schedule (outstanding w.running)
    → Pending d v.schedule (outstanding v.running)
Step-Pending d w (accept directory now) h q =
    Pending-changed d directory now w.schedule (outstanding w.running) h.started q
Step-Pending d w (complete snapshot p now running valid) h q =
    Pending-finish d snapshot p now w.schedule
      (subst (λ o. Pending d w.schedule (outstanding o)) running q)
Step-Pending d w (probe lock blocked_on now idle) h q =
    Pending-probed d lock blocked_on now w.schedule (outstanding w.running) q

Waits-Pending :
    (d : String) (w v : Watch)
    → Waits w v
    → AreSound w.schedule (outstanding w.running)
    → Pending d w.schedule (outstanding w.running)
    → AreSound v.schedule (outstanding v.running) × Pending d v.schedule (outstanding v.running)
Waits-Pending d w v still h q = (h, q)
Waits-Pending d w v (wait r st) h q =
    let before = Waits-Pending d w _ r h q in
    (Step-AreSound _ st before.0, Step-Pending d _ st before.0 before.1)

changed-Pending :
    (d : String) (now : ℕ) (s : Schedule) (running : Snapshot) (r : PendingRoot)
    → lookup d s.roots ≡ some r
    → AreSound s running
    → Pending d (changed d now s) running
unfolding changed
changed-Pending d now s running r found h =
    subst⁻¹
      (λ o.
        Pending d
          (elim o [
            | none ↦ s
            | some _ ↦ record {
              generation = s.generation + 1;
              roots = adjust d (touched (s.generation + 1) now) s.roots;
            }
          ])
          running)
      found
      (record {
        known = ap is_some moved;
        stays =
            On-implies _ _
              (λ k q held same.
                subst (λ z. Stays d running k z) (is_touched k q held same)
                  (touched-Stays d s.generation now running k r h.started) same)
              (adjust d f s.roots)
              (IsUnique-Held (adjust d f s.roots) (IsUnique-adjust d f s.roots h.unique));
      })
  where
    f : PendingRoot → PendingRoot
    f = touched (s.generation + 1) now

    moved : lookup d (adjust d f s.roots) ≡ some (f r)
    moved = ground (arith, found, lookup-adjust d d f s.roots, same-key_refl d)

    is_touched :
        (k : String) (q : PendingRoot) → lookup k (adjust d f s.roots) ≡ some q → k ≡ d → f r ≡ q
    is_touched k q held same =
        some-injective _ _ (sym moved ∙ (sym (ap (λ j. lookup j (adjust d f s.roots)) same) ∙ held))

-- A change of a watched directory stays pending until an action takes it away: after any ends of
-- workers, other changes and probes that follow it, the one of a worker that runs while it comes
-- included, the directory has a root and the root is dirty.
pub changed_is_kept :
    (d : String) (now : ℕ) (w v : Watch) (r : PendingRoot)
    → Reach initial w
    → lookup d w.schedule.roots ≡ some r
    → Waits (record w { schedule = changed d now w.schedule }) v
    → (q : PendingRoot) × ((lookup d v.schedule.roots ≡ some q) × (q.dirty ≡ true))
changed_is_kept d now w v r reach found waits =
    let h = Reach-AreSound w reach in
    let after = Step-AreSound w (accept d now) h in
    let start = changed-Pending d now w.schedule (outstanding w.running) r found h in
    let q = (Waits-Pending d _ v waits after start).1 in
    elim (Option-cases (lookup d v.schedule.roots)) [
      | inl missing ↦ ground (arith, missing, q.known)
      | inr (z, is) ↦ (
        z,
        (is, (On-lookup (Stays d (outstanding v.running)) d z v.schedule.roots q.stays is refl).0),
      )
    ]
