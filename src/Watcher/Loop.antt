-- ===== src/Watcher/Loop.antt =====
-- src/patchharbor_watcher/loop.py, run_repository_watcher: what the loop does with its schedule while at
-- most one worker runs.
use patch_harbor.Base.{ℕ, String, ◌≡◌, ◌≢◌, Bool, true, false, Option, none, some, List, []}
use patch_harbor.Watcher.Protocol.{LockReference, ExchangeWatchTarget, Progress, IsProgress}
use patch_harbor.Watcher.Schedule.{
  Schedule, Snapshot, empty, replace, changed, ready, begin, finish, probed, probe_failed,
}

-- The schedule and the snapshot that the running worker was started with, if one runs.
pub record Watch : Type 0 where
  pub schedule : Schedule
  pub running : Option Snapshot

abbrev pub initial : Watch
initial = record { schedule = empty; running = none }

-- One action of the loop. `refresh` and `accept` run at any time, the others between workers. The flag
-- says whether the action may take pending work away: to a worker, for another subscription, or after
-- a probe that failed.
pub data Step (w : Watch) : Bool → Watch → Type 0 where
  refresh :
      (targets : List ExchangeWatchTarget) (now : ℕ)
      → Step w true (record w { schedule = replace targets now w.schedule })
  accept :
      (directory : String) (now : ℕ)
      → Step w false (record w { schedule = changed directory now w.schedule })
  launch :
      (now : ℕ) (snapshot : Snapshot) (s : Schedule)
      → w.running ≡ none
      → ready now w.schedule ≢ []
      → begin (ready now w.schedule) w.schedule ≡ some (snapshot, s)
      → Step w true (record { schedule = s; running = some snapshot })
  complete :
      (snapshot : Snapshot) (p : Progress) (now : ℕ)
      → w.running ≡ some snapshot
      → IsProgress p
      → Step w false (record { schedule = finish snapshot p now w.schedule; running = none })
  probe :
      (lock : LockReference) (blocked_on : Option LockReference) (now : ℕ)
      → w.running ≡ none
      → Step w false (record w { schedule = probed lock blocked_on now w.schedule })
  give_up :
      (lock : LockReference)
      → w.running ≡ none
      → Step w true (record w { schedule = probe_failed lock w.schedule })

-- Any run of the loop.
pub data Reach (w : Watch) : Watch → Type 0 where
  here : Reach w w
  next : {v u : Watch} {takes : Bool} → Reach w v → Step v takes u → Reach w u

-- A run that takes no pending work away.
pub data Waits (w : Watch) : Watch → Type 0 where
  still : Waits w w
  wait : {v u : Watch} → Waits w v → Step v false u → Waits w u

abbrev pub outstanding : Option Snapshot → Snapshot
outstanding none = []
outstanding (some snapshot) = snapshot
