-- ===== src/Watcher/Schedule.antt =====
-- src/patchharbor_watcher/scheduling.py: the pending work of every Exchange root. Times are counted in
-- milliseconds.
use patch_harbor.Base.{
  ℕ, String, ◌+◌, ◌-◌, ◌*◌, min, Bool, true, false, ◌&&◌, not, Option, none, some, List, [], ◌∷◌,
  ◌++◌, leb, if◌then◌else◌, ◌==◌, contains, string_eq, nat_eq, option_eq, lookup, insert, adjust,
  codes, is_some, before_or_equal,
}
use patch_harbor.Watcher.Protocol.{
  LockReference, ExchangeWatchTarget, Progress, was_attempted, locked, lock_reference_eq,
  watch_target_eq,
}

abbrev pub quiet : ℕ
quiet = 5000

abbrev pub first_backoff : ℕ
first_backoff = 5000

abbrev pub last_backoff : ℕ
last_backoff = 300000

pub record PendingRoot : Type 0 where
  pub target : ExchangeWatchTarget
  pub generation : ℕ
  pub due : ℕ
  pub dirty : Bool
  pub lock : Option LockReference
  pub probe_at : Option ℕ
  pub backoff : ℕ

abbrev pub Roots : Type 0
Roots = List (String × PendingRoot)

pub record Schedule : Type 0 where
  pub roots : Roots
  pub generation : ℕ

-- `Schedule.__init__`
abbrev pub empty : Schedule
empty = record { roots = []; generation = 0 }

-- The root of a fresh subscription.
abbrev pub fresh : ExchangeWatchTarget → ℕ → ℕ → PendingRoot
fresh target generation now = record {
  target = target;
  generation = generation;
  due = now + quiet;
  dirty = true;
  lock = none;
  probe_at = none;
  backoff = first_backoff;
}

unfoldable pub replace_loop : List ExchangeWatchTarget → ℕ → Schedule → Schedule
unfolding insert
replace_loop [] now s = s
replace_loop (t ∷ ts) now s = replace_loop ts now (record {
  generation = s.generation + 1;
  roots = insert t.directory (fresh t (s.generation + 1) now) s.roots;
})

-- `replace`
unfoldable pub replace : List ExchangeWatchTarget → ℕ → Schedule → Schedule
unfolding replace_loop
replace targets now s = replace_loop targets now (record s { roots = [] })

abbrev pub touched : ℕ → ℕ → PendingRoot → PendingRoot
touched generation now r = record r { generation = generation; due = now + quiet; dirty = true }

-- `changed`: an unknown directory changes nothing, the counter included.
unfoldable pub changed : String → ℕ → Schedule → Schedule
unfolding lookup adjust
changed directory now s = elim (lookup directory s.roots) [
  | none ↦ s
  | some _ ↦ record {
    generation = s.generation + 1;
    roots = adjust directory (touched (s.generation + 1) now) s.roots;
  }
]

unfoldable pub is_ready : ℕ → PendingRoot → Bool
is_ready now r = r.dirty && not (is_some r.lock) && leb r.due now

-- `sorted(self.roots.items(), key=lambda item: str(item[0]))`
unfoldable pub insert_root : String × PendingRoot → Roots → Roots
unfolding before_or_equal
insert_root r [] = r ∷ []
insert_root r (q ∷ rs) =
    if before_or_equal (codes r.0) (codes q.0) then r ∷ q ∷ rs else q ∷ insert_root r rs

unfoldable pub sort_roots : Roots → Roots
unfolding insert_root
sort_roots [] = []
sort_roots (r ∷ rs) = insert_root r (sort_roots rs)

unfoldable pub ready_targets : ℕ → Roots → List ExchangeWatchTarget
unfolding is_ready
ready_targets now [] = []
ready_targets now ((_, r) ∷ rs) =
    let rest = ready_targets now rs in if is_ready now r then r.target ∷ rest else rest

-- `ready`
unfoldable pub ready : ℕ → Schedule → List ExchangeWatchTarget
unfolding sort_roots ready_targets
ready now s = ready_targets now (sort_roots s.roots)

abbrev pub Snapshot : Type 0
Snapshot = List (String × (ExchangeWatchTarget × ℕ))

abbrev pub cleaned : PendingRoot → PendingRoot
cleaned r = record r { dirty = false }

-- `begin`; `none` is the `KeyError` of a target without a root.
unfoldable pub begin_loop :
    List ExchangeWatchTarget → Snapshot → Schedule → Option (Snapshot × Schedule)
unfolding lookup insert adjust
begin_loop [] snapshot s = some (snapshot, s)
begin_loop (t ∷ ts) snapshot s = elim (lookup t.directory s.roots) [
  | none ↦ none
  | some r ↦
      begin_loop ts (insert t.directory (t, r.generation) snapshot)
        (record s { roots = adjust t.directory cleaned s.roots })
]

unfoldable pub begin : List ExchangeWatchTarget → Schedule → Option (Snapshot × Schedule)
unfolding begin_loop
begin targets s = begin_loop targets [] s

-- The branches of `finish` for one root that has the target of the snapshot.
unfoldable pub settle_root : Progress → ℕ → ℕ → PendingRoot → PendingRoot
settle_root p now generation r = elim p.status [
  | locked ↦ record r {
    dirty = true;
    lock = p.blocked_on;
    backoff = first_backoff;
    probe_at = some (now + first_backoff);
  }
  | was_attempted ↦ record r { dirty = true }
  | _ ↦ if r.generation == generation then cleaned r else r
]

unfoldable pub finish_root : Progress → ℕ → ExchangeWatchTarget → ℕ → PendingRoot → PendingRoot
unfolding settle_root
finish_root p now target generation r =
    if r.target == target then settle_root p now generation r else r

-- `finish`
unfoldable pub finish : Snapshot → Progress → ℕ → Schedule → Schedule
unfolding finish_root adjust
finish [] p now s = s
finish ((directory, (target, generation)) ∷ rest) p now s =
    finish rest p now
      (record s { roots = adjust directory (finish_root p now target generation) s.roots })

-- Whether a root waits for a lock whose probe is due; `none` is the `TypeError` of comparing `None`.
unfoldable pub probe_due : ℕ → PendingRoot → Option (Option LockReference)
probe_due now r = elim r.lock [
  | none ↦ some none
  | some l ↦ elim r.probe_at [ none ↦ none | some t ↦ some (if leb t now then some l else none) ]
]

abbrev pub add_once : Option LockReference → List LockReference → List LockReference
add_once none ls = ls
add_once (some l) ls = if contains ls l then ls else ls ++ l ∷ []

unfoldable pub probes_loop : ℕ → Roots → List LockReference → Option (List LockReference)
unfolding probe_due
probes_loop now [] seen = some seen
probes_loop now ((_, r) ∷ rs) seen = elim (probe_due now r) [
  | none ↦ none
  | some found ↦ probes_loop now rs (add_once found seen)
]

-- `probes`
unfoldable pub probes : ℕ → Schedule → Option (List LockReference)
unfolding probes_loop
probes now s = probes_loop now s.roots []

unfoldable pub on_roots : (PendingRoot → PendingRoot) → Roots → Roots
on_roots f [] = []
on_roots f ((d, r) ∷ rs) = (d, f r) ∷ on_roots f rs

unfoldable pub relock : Option LockReference → ℕ → PendingRoot → PendingRoot
relock none now r = record r { lock = none; probe_at = none }
relock (some l) now r = record r {
  lock = some l;
  backoff = min last_backoff (r.backoff * 2);
  probe_at = some (now + min last_backoff (r.backoff * 2));
}

unfoldable pub probed_root : LockReference → Option LockReference → ℕ → PendingRoot → PendingRoot
unfolding relock
probed_root l blocked_on now r = if r.lock == some l then relock blocked_on now r else r

-- `probed`
unfoldable pub probed : LockReference → Option LockReference → ℕ → Schedule → Schedule
unfolding on_roots probed_root
probed l blocked_on now s = record s { roots = on_roots (probed_root l blocked_on now) s.roots }

unfoldable pub released : LockReference → PendingRoot → PendingRoot
released l r =
    if r.lock == some l then record r { lock = none; probe_at = none; dirty = false } else r

-- `probe_failed`
unfoldable pub probe_failed : LockReference → Schedule → Schedule
unfolding on_roots released
probe_failed l s = record s { roots = on_roots (released l) s.roots }

-- The deadline of a dirty root; `none` is a `None` among the deadlines, on which `min` or the
-- subtraction raises.
unfoldable pub deadline : PendingRoot → Option ℕ
deadline r = elim r.lock [ none ↦ some r.due | some _ ↦ r.probe_at ]

-- The least deadline of the dirty roots, if there is one.
unfoldable pub earliest : Roots → Option (Option ℕ)
unfolding deadline
earliest [] = some none
earliest ((_, r) ∷ rs) = elim (earliest rs) [
  | none ↦ none
  | some least ↦
      if r.dirty
      then elim (deadline r) [
        | none ↦ none
        | some t ↦ some (some (elim least [ none ↦ t | some u ↦ min t u ]))
      ]
      else some least
]

-- `timeout`
unfoldable pub timeout : ℕ → Schedule → Option (Option ℕ)
unfolding earliest
timeout now s = elim (earliest s.roots) [
  | none ↦ none
  | some none ↦ some none
  | some (some t) ↦ some (some (t - now))
]
