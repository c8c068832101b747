-- ===== src/Watcher/Launch.antt =====
-- src/patchharbor_watcher/scheduling.py, ready and begin: the start of a worker on the roots that are
-- ready.
use patch_harbor.Base.{
  Option-cases, inl, inr, ap, ◌∙◌, ℕ, String, ◌≡◌, refl, sym, ◌≤◌, true, false, Option, some, List,
  [], ◌∷◌, arith, if◌then◌else◌, string_eq, lookup, insert, adjust, lookup-adjust, is_some, All, On,
  On-implies, On-both, On-insert, On-adjust, On-lookup, IsUnique, IsUnique-adjust, IsUnique-Held,
}
use patch_harbor.Watcher.Protocol.{ExchangeWatchTarget}
use patch_harbor.Watcher.Schedule.{
  PendingRoot, Roots, Schedule, Snapshot, cleaned, is_ready, ready_targets, ready, begin_loop,
  begin,
}
use patch_harbor.Watcher.Roots.{On-sort_roots}
use patch_harbor.Watcher.Soundness.{IsSound, IsFree, AreSound}

-- The target of a root that is ready.
abbrev pub IsReadyAt : ℕ → Roots → ExchangeWatchTarget → Type 0
IsReadyAt now roots t =
    (r : PendingRoot) × ((lookup t.directory roots ≡ some r) × (is_ready now r ≡ true))

ready_targets-IsReadyAt :
    (now n : ℕ) (roots rs : Roots)
    → On (IsSound n) rs
    → On (λ d r. lookup d roots ≡ some r) rs
    → All (IsReadyAt now roots) (ready_targets now rs)
unfolding ready_targets
ready_targets-IsReadyAt now n roots [] sound held = tt
ready_targets-IsReadyAt now n roots ((d, r) ∷ rs) sound held =
    let rest = ready_targets-IsReadyAt now n roots rs sound.1 held.1 in
    (elim (is_ready now r)
        as (λ b.
          is_ready now r ≡ b
          → All (IsReadyAt now roots)
              (if b then r.target ∷ ready_targets now rs else ready_targets now rs)) [
                | true ↦ λ is. ((r, (ap (λ k. lookup k roots) sound.0.named ∙ held.0, is)), rest)
                | false ↦ λ is. rest
              ])
      refl

-- Each target that `ready` gives has a root that is ready, and under its own directory.
pub ready-IsReadyAt :
    (now : ℕ) (s : Schedule)
    → IsUnique s.roots
    → On (IsSound s.generation) s.roots
    → All (IsReadyAt now s.roots) (ready now s)
unfolding ready
ready-IsReadyAt now s unique sound =
    ready_targets-IsReadyAt now s.generation s.roots _
      (On-sort_roots (IsSound s.generation) s.roots sound)
      (On-sort_roots (λ d r. lookup d s.roots ≡ some r) s.roots (IsUnique-Held s.roots unique))

-- A directory with a root, that waits for no lock.
abbrev IsUnlocked : Roots → ExchangeWatchTarget → Type 0
IsUnlocked roots t =
    (is_some (lookup t.directory roots) ≡ true)
    × On (λ k r. k ≡ t.directory → is_some r.lock ≡ false) roots

is_ready-lock : (now : ℕ) (r : PendingRoot) → is_ready now r ≡ true → is_some r.lock ≡ false
unfolding is_ready
is_ready-lock now r h = ground arith

IsReadyAt-IsUnlocked :
    (now : ℕ) (roots : Roots) (t : ExchangeWatchTarget)
    → IsUnique roots
    → IsReadyAt now roots t
    → IsUnlocked roots t
IsReadyAt-IsUnlocked now roots t unique (r, (held, is)) = (
  ap is_some held,
  On-implies _ _
      (λ k q found same.
        ground (arith, is_ready-lock now r is, held, found, ap (λ j. lookup j roots) same))
      roots (IsUnique-Held roots unique),
)

IsUnlocked-adjust :
    (d : String) (roots : Roots) (t : ExchangeWatchTarget)
    → IsUnlocked roots t
    → IsUnlocked (adjust d cleaned roots) t
IsUnlocked-adjust d roots t h = (
  ground (arith, h.0, lookup-adjust t.directory d cleaned roots),
  On-adjust (λ k r. k ≡ t.directory → is_some r.lock ≡ false)
      (λ k r. k ≡ t.directory → is_some r.lock ≡ false) d cleaned (λ j r q. q) (λ j same r q. q)
      roots h.1,
)

-- What the start of a worker gives.
pub record Begun (o : Option (Snapshot × Schedule)) : Type 0 where
  pub snapshot : Snapshot
  pub after : Schedule
  pub result : o ≡ some (snapshot, after)
  pub sound : AreSound after snapshot

All-IsUnlocked-adjust :
    (d : String) (roots : Roots) (ts : List ExchangeWatchTarget)
    → All (IsUnlocked roots) ts
    → All (IsUnlocked (adjust d cleaned roots)) ts
All-IsUnlocked-adjust d roots [] h = tt
All-IsUnlocked-adjust d roots (t ∷ ts) h =
    (IsUnlocked-adjust d roots t h.0, All-IsUnlocked-adjust d roots ts h.1)

IsFree-insert :
    (t : ExchangeWatchTarget) (g : ℕ) (snapshot : Snapshot) (d : String) (r : PendingRoot)
    → (d ≡ t.directory → is_some r.lock ≡ false)
    → IsFree snapshot d r
    → IsFree (insert t.directory (t, g) snapshot) d r
IsFree-insert t g snapshot d r unlocked free =
    On-insert (λ k e. k ≡ d → r.generation ≡ e.1 → is_some r.lock ≡ false) t.directory (t, g)
      snapshot (λ j same named young. unlocked (sym named ∙ same)) free

-- A root that is cleaned stays sound, if it waits for no lock.
AreSound-launch :
    (t : ExchangeWatchTarget) (r : PendingRoot) (snapshot : Snapshot) (s : Schedule)
    → lookup t.directory s.roots ≡ some r
    → IsUnlocked s.roots t
    → AreSound s snapshot
    → AreSound
        (record s { roots = adjust t.directory cleaned s.roots })
        (insert t.directory (t, r.generation) snapshot)
AreSound-launch t r snapshot s found unlocked h = record {
  unique = IsUnique-adjust t.directory cleaned s.roots h.unique;
  roots =
      On-adjust (λ k q. IsSound s.generation k q × (k ≡ t.directory → is_some q.lock ≡ false))
        (IsSound s.generation) t.directory cleaned (λ k q p. p.0)
        (λ k same q p. record {
          named = p.0.named;
          born = p.0.born;
          timed = p.0.timed;
          waiting = λ waits. ground (arith, waits, p.1 same);
          least = p.0.least;
          most = p.0.most;
        })
        s.roots
        (On-both (IsSound s.generation) (λ k q. k ≡ t.directory → is_some q.lock ≡ false) s.roots
          h.roots unlocked.1);
  free =
      On-adjust (λ k q. IsFree snapshot k q × (k ≡ t.directory → is_some q.lock ≡ false))
        (IsFree (insert t.directory (t, r.generation) snapshot)) t.directory cleaned
        (λ k q p. IsFree-insert t r.generation snapshot k q p.1 p.0)
        (λ k same q p. IsFree-insert t r.generation snapshot k (cleaned q) p.1 p.0) s.roots
        (On-both (IsFree snapshot) (λ k q. k ≡ t.directory → is_some q.lock ≡ false) s.roots h.free
          unlocked.1);
  started =
      On-insert (λ k e. e.1 ≤ s.generation) t.directory (t, r.generation) snapshot
        (λ k same. (On-lookup (IsSound s.generation) t.directory r s.roots h.roots found).born)
        h.started;
}

begin_loop-found :
    (t : ExchangeWatchTarget) (ts : List ExchangeWatchTarget) (snapshot : Snapshot) (s : Schedule)
    (r : PendingRoot)
    → lookup t.directory s.roots ≡ some r
    → begin_loop (t ∷ ts) snapshot s
      ≡ begin_loop ts
          (insert t.directory (t, r.generation) snapshot)
          (record s { roots = adjust t.directory cleaned s.roots })
unfolding begin_loop
begin_loop-found t ts snapshot s r found = ground (arith, found)

pub begin_loop-Begun :
    (ts : List ExchangeWatchTarget) (snapshot : Snapshot) (s : Schedule)
    → All (IsUnlocked s.roots) ts
    → AreSound s snapshot
    → Begun (begin_loop ts snapshot s)
unfolding begin_loop
begin_loop-Begun [] snapshot s unlocked h = record {
  snapshot = snapshot;
  after = s;
  result = refl;
  sound = h;
}
begin_loop-Begun (t ∷ ts) snapshot s unlocked h = elim (Option-cases (lookup t.directory s.roots)) [
  | inl missing ↦ ground (arith, unlocked.0.0, missing)
  | inr (r, found) ↦
      let b =
        begin_loop-Begun ts (insert t.directory (t, r.generation) snapshot)
          (record s { roots = adjust t.directory cleaned s.roots })
          (All-IsUnlocked-adjust t.directory s.roots ts unlocked.1)
          (AreSound-launch t r snapshot s found unlocked.0 h) in
      record {
        snapshot = b.snapshot;
        after = b.after;
        sound = b.sound;
        result = begin_loop-found t ts snapshot s r found ∙ b.result;
      }
]

All-IsUnlocked :
    (now : ℕ) (roots : Roots) (ts : List ExchangeWatchTarget)
    → IsUnique roots
    → All (IsReadyAt now roots) ts
    → All (IsUnlocked roots) ts
All-IsUnlocked now roots [] unique h = tt
All-IsUnlocked now roots (t ∷ ts) unique h =
    (IsReadyAt-IsUnlocked now roots t unique h.0, All-IsUnlocked now roots ts unique h.1)

-- A worker can be started on whatever is ready.
pub begin-Begun : (now : ℕ) (s : Schedule) → AreSound s [] → Begun (begin (ready now s) s)
unfolding begin
begin-Begun now s h =
    begin_loop-Begun (ready now s) [] s
      (All-IsUnlocked now s.roots (ready now s) h.unique (ready-IsReadyAt now s h.unique h.roots)) h
