-- ===== src/Tests/Schedule.antt =====
-- Runs of the watcher's schedule: src/patchharbor_watcher/scheduling.py.
use patch_harbor.Base.{
  ok, ◌≢◌, ◌⊎◌, ◌+◌, ◌≡◌, refl, true, none, some, [], ◌∷◌, arith, lookup, is_some, string_eq,
  nat_eq, option_eq, before_or_equal, string_discrete, insert, adjust,
}
use patch_harbor.Models.{RepositoryId}
use patch_harbor.Watcher.Protocol.{
  LockReference, repository, ExchangeWatchTarget, Progress, progress, no_candidate, locked,
  watch_target_eq, lock_reference_eq,
}
use patch_harbor.Watcher.Schedule.{
  PendingRoot, Schedule, Snapshot, empty, replace, replace_loop, changed, ready, ready_targets,
  is_ready, sort_roots, insert_root, begin, begin_loop, finish, finish_root, settle_root, probes,
  probes_loop, probe_due, probed, on_roots, probed_root, relock, timeout, earliest, deadline, fresh,
  cleaned,
}
use patch_harbor.Watcher.Loop.{
  Watch, initial, refresh, launch, complete, Reach, here, next, still, wait,
}
use patch_harbor.Watcher.Idle.{IsIdle}
use patch_harbor.Watcher.Wake.{IsIdle-before_timeout, IsIdle-without_timeout, work_at_timeout}
use patch_harbor.Watcher.Faults.{never_raises}
use patch_harbor.Watcher.Kept.{changed_is_kept}

abbrev owner : RepositoryId
owner = record { value = "0c9e2a44-52a3-4ba5-8d6b-5d1f6fb7b1a2" }

abbrev exchange : ExchangeWatchTarget
exchange = record { directory = "/exchange"; device = 1; inode = 2; repository_ids = owner ∷ [] }

-- The watcher has subscribed to one directory.
abbrev subscribed : Watch
subscribed = record initial { schedule = replace (exchange ∷ []) 0 empty }

subscribed-Reach : Reach initial subscribed
subscribed-Reach = next here (refresh (exchange ∷ []) 0)

abbrev clean_root : PendingRoot
clean_root = cleaned (fresh exchange 1 0)

abbrev taken : Schedule
taken = record { roots = ("/exchange", clean_root) ∷ []; generation = 1 }

abbrev snapshot : Snapshot
snapshot = ("/exchange", (exchange, 1)) ∷ []

-- A worker runs on it.
abbrev launched : Watch
launched = record { schedule = taken; running = some snapshot }

begin_once : begin (ready 5000 subscribed.schedule) subscribed.schedule ≡ some (snapshot, taken)
unfolding replace replace_loop ready ready_targets is_ready sort_roots insert_root begin begin_loop
    lookup insert adjust string_eq string_discrete before_or_equal
begin_once = refl

ready_once : ready 5000 subscribed.schedule ≡ exchange ∷ []
unfolding replace replace_loop ready ready_targets is_ready sort_roots insert_root insert
ready_once = refl

launched-Reach : Reach initial launched
launched-Reach =
    next subscribed-Reach
      (launch 5000 snapshot taken refl (λ is. ground (arith, is, ready_once)) begin_once)

-- The directory changes while the worker runs, and the worker ends without a candidate.
abbrev ended : Progress
ended = record { status = no_candidate; blocked_on = none }

ended-IsProgress : progress no_candidate none ≡ ok ended
unfolding progress
ended-IsProgress = refl

taken_root : lookup "/exchange" taken.roots ≡ some clean_root
unfolding lookup string_eq string_discrete
taken_root = refl

changed_is_kept_example :
    (q : PendingRoot) × ((lookup "/exchange"
          (finish snapshot ended 7000 (changed "/exchange" 6000 taken)).roots
        ≡ some q)
      × (q.dirty ≡ true))
changed_is_kept_example =
    changed_is_kept "/exchange" 6000 launched
      (record {
        schedule = finish snapshot ended 7000 (changed "/exchange" 6000 taken);
        running = none;
      })
      clean_root launched-Reach taken_root
      (wait still (complete snapshot ended 7000 refl ended-IsProgress))

never_raises_example :
    (is_some (probes 1000 subscribed.schedule) ≡ true)
    × ((is_some (timeout 1000 subscribed.schedule) ≡ true)
        × (is_some (begin (ready 1000 subscribed.schedule) subscribed.schedule) ≡ true))
never_raises_example = never_raises subscribed 1000 subscribed-Reach refl

-- The timeout runs to the end of the quiet period.
timeout_once : timeout 1000 subscribed.schedule ≡ some (some 4000)
unfolding replace replace_loop insert timeout earliest deadline
timeout_once = refl

IsIdle-before_timeout_example : IsIdle 3000 subscribed.schedule
IsIdle-before_timeout_example =
    IsIdle-before_timeout subscribed 1000 4000 3000 subscribed-Reach timeout_once (omega arith)
      (omega arith)

work_at_timeout_example :
    (ready (1000 + 4000) subscribed.schedule ≢ [])
    ⊎ (probes (1000 + 4000) subscribed.schedule ≢ some [])
work_at_timeout_example = work_at_timeout subscribed 1000 4000 timeout_once

timeout-taken : timeout 6000 taken ≡ some none
unfolding timeout earliest deadline
timeout-taken = refl

IsIdle-without_timeout_example : IsIdle 9000 taken
IsIdle-without_timeout_example =
    IsIdle-without_timeout launched 6000 9000 launched-Reach timeout-taken

-- A lock is probed after five seconds, and half as often after each probe that meets it again.
abbrev lock : LockReference
lock = record { kind = repository; repo_id = some owner.value }

abbrev blocked : Progress
blocked = record { status = locked; blocked_on = some lock }

probes_after_lock : probes 10000 (finish snapshot blocked 5000 taken) ≡ some (lock ∷ [])
unfolding finish finish_root settle_root adjust string_eq string_discrete watch_target_eq probes
    probes_loop probe_due
probes_after_lock = refl

probed_again :
    timeout 10000 (probed lock (some lock) 10000 (finish snapshot blocked 5000 taken))
    ≡ some (some 10000)
unfolding finish finish_root settle_root adjust string_eq string_discrete watch_target_eq probed
    on_roots probed_root relock option_eq lock_reference_eq timeout earliest deadline
probed_again = refl
