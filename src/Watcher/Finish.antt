-- ===== src/Watcher/Finish.antt =====
-- src/patchharbor_watcher/scheduling.py, finish: what the end of a worker keeps of the roots.
use patch_harbor.Base.{
  ap, ◌∙◌, ℕ, String, ◌≡◌, refl, sym, true, false, Option, none, some, [], ◌∷◌, arith,
  if◌then◌else◌, ◌==◌, string_eq, nat_eq, is_some, On, On-implies, On-both, On-adjust, IsUnique,
  IsUnique-adjust, same-key,
}
use patch_harbor.Watcher.Protocol.{
  LockReference, ExchangeWatchTarget, Status, no_candidate, was_attempted, locked, dry_run, error,
  Progress, IsProgress, progress, is_locked, watch_target_eq,
}
use patch_harbor.Watcher.Schedule.{
  PendingRoot, Schedule, Snapshot, cleaned, settle_root, finish_root, finish,
}
use patch_harbor.Watcher.Soundness.{IsSound, IsFree, AreSound}

IsProgress-locked :
    (b : Option LockReference)
    → IsProgress (record { status = locked; blocked_on = b })
    → is_some b ≡ true
unfolding progress
IsProgress-locked none h = ground arith
IsProgress-locked (some l) h = refl

clean-IsSound :
    (g n : ℕ) (d : String) (r : PendingRoot)
    → IsSound n d r
    → (r.generation ≡ g → is_some r.lock ≡ false)
    → IsSound n d (if r.generation == g then cleaned r else r)
clean-IsSound g n d r h free =
    (elim (r.generation == g)
        as (λ b. (b ≡ true → r.generation ≡ g) → IsSound n d (if b then cleaned r else r)) [
          | true ↦ λ young. record {
            named = h.named;
            born = h.born;
            timed = h.timed;
            waiting = λ waits. ground (arith, waits, free (young refl));
            least = h.least;
            most = h.most;
          }
          | false ↦ λ young. h
        ])
      (same-key r.generation g)

settle_root-IsSound :
    (status : Status) (b : Option LockReference) (now g n : ℕ) (d : String) (r : PendingRoot)
    → IsProgress (record { status = status; blocked_on = b })
    → IsSound n d r
    → (is_locked status ≡ false → r.generation ≡ g → is_some r.lock ≡ false)
    → IsSound n d (settle_root (record { status = status; blocked_on = b }) now g r)
unfolding settle_root
settle_root-IsSound locked b now g n d r p h free = record {
  named = h.named;
  born = h.born;
  timed = IsProgress-locked b p;
  waiting = λ _. refl;
  least = omega arith;
  most = omega arith;
}
settle_root-IsSound was_attempted b now g n d r p h free = record {
  named = h.named;
  born = h.born;
  timed = h.timed;
  waiting = λ _. refl;
  least = h.least;
  most = h.most;
}
settle_root-IsSound no_candidate b now g n d r p h free = clean-IsSound g n d r h (free refl)
settle_root-IsSound dry_run b now g n d r p h free = clean-IsSound g n d r h (free refl)
settle_root-IsSound error b now g n d r p h free = clean-IsSound g n d r h (free refl)

-- A worker that met no lock leaves the locks and the generations.
settle_root-keeps :
    (status : Status) (b : Option LockReference) (now g : ℕ) (r : PendingRoot)
    → is_locked status ≡ false
    → let q = settle_root (record { status = status; blocked_on = b }) now g r in
      (q.lock ≡ r.lock) × (q.generation ≡ r.generation)
unfolding settle_root
settle_root-keeps locked b now g r h = ground arith
settle_root-keeps was_attempted b now g r h = (refl, refl)
settle_root-keeps no_candidate b now g r h = (ground arith, ground arith)
settle_root-keeps dry_run b now g r h = (ground arith, ground arith)
settle_root-keeps error b now g r h = (ground arith, ground arith)

-- A root during the loop, of whose snapshot `rest` is left.
abbrev Settling : Progress → Snapshot → ℕ → String → PendingRoot → Type 0
Settling p rest n d r = IsSound n d r × (is_locked p.status ≡ false → IsFree rest d r)

finish_root-Settling :
    (p : Progress) (now : ℕ) (target : ExchangeWatchTarget) (g : ℕ) (rest : Snapshot) (n : ℕ)
    (directory d : String) (r : PendingRoot)
    → IsProgress p
    → d ≡ directory
    → Settling p ((directory, (target, g)) ∷ rest) n d r
    → Settling p rest n d (finish_root p now target g r)
unfolding finish_root
finish_root-Settling p now target g rest n directory d r valid same h =
    elim (r.target == target)
      as (λ b. Settling p rest n d (if b then settle_root p now g r else r)) [
        | true ↦ (
          settle_root-IsSound p.status p.blocked_on now g n d r valid h.0
              (λ open_ young. (h.1 open_).0 (sym same) young),
          λ open_.
              let keeps = settle_root-keeps p.status p.blocked_on now g r open_ in
              On-implies _ _
                (λ k e free named young. ap is_some keeps.0 ∙ free named (sym keeps.1 ∙ young)) rest
                (h.1 open_).1,
        )
        | false ↦ (h.0, λ open_. (h.1 open_).1)
      ]

finish-Settling :
    (snapshot : Snapshot) (p : Progress) (now : ℕ) (s : Schedule)
    → IsProgress p
    → IsUnique s.roots
    → On (Settling p snapshot s.generation) s.roots
    → AreSound (finish snapshot p now s) []
unfolding finish
finish-Settling [] p now s valid unique h = record {
  unique = unique;
  roots = On-implies _ _ (λ d r q. q.0) s.roots h;
  free = On-implies _ _ (λ d r q. tt) s.roots h;
  started = tt;
}
finish-Settling ((directory, (target, g)) ∷ rest) p now s valid unique h =
    finish-Settling rest p now _ valid
      (IsUnique-adjust directory (finish_root p now target g) s.roots unique)
      (On-adjust (Settling p ((directory, (target, g)) ∷ rest) s.generation)
        (Settling p rest s.generation) directory (finish_root p now target g)
        (λ d r q. (q.0, λ open_. (q.1 open_).1))
        (λ d same r q.
          finish_root-Settling p now target g rest s.generation directory d r valid same q)
        s.roots h)

pub AreSound-finish :
    (snapshot : Snapshot) (p : Progress) (now : ℕ) (s : Schedule)
    → IsProgress p
    → AreSound s snapshot
    → AreSound (finish snapshot p now s) []
AreSound-finish snapshot p now s valid h = finish-Settling snapshot p now s valid h.unique (
    On-implies _ _ (λ d r q. (q.0, λ _. q.1)) s.roots
      (On-both (IsSound s.generation) (IsFree snapshot) s.roots h.roots h.free))
