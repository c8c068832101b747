-- ===== src/Watcher/Wake.antt =====
-- src/patchharbor_watcher/scheduling.py, timeout: the loop sleeps exactly until the schedule has work.
use mathlib.Core.Path.{subst}
use mathlib.Core.Option.{some-injective}
use patch_harbor.Base.{
  ap, ◌∙◌, ◌⊎◌, inl, inr, ◌≢◌, ℕ, String, ◌≡◌, ◌+◌, ◌-◌, ◌≤◌, ◌<◌, min, Bool, true, false, Option,
  none, some, [], ◌∷◌, ◌&&◌, ◌=ℕ◌, arith, On, On-implies, On-both, Option-cases, Bool-cases,
}
use patch_harbor.Watcher.Protocol.{lock_reference_eq}
use patch_harbor.Watcher.Schedule.{
  PendingRoot, Roots, Schedule, is_ready, sort_roots, ready, probe_due, probes, deadline, earliest,
  timeout,
}
use patch_harbor.Watcher.Loop.{Watch, initial, Reach}
use patch_harbor.Watcher.Soundness.{IsSound}
use patch_harbor.Watcher.Faults.{Reach-AreSound}
use patch_harbor.Watcher.Idle.{
  Waiting, Waiting-IsIdle, NotBefore, NotBefore-Waiting, any, any-sort_roots, ready_targets-any,
  is_due, probes_loop-due, IsIdle,
}

-- Whether a root is dirty with a deadline.
abbrev is_at : ℕ → PendingRoot → Bool
is_at t r = r.dirty && elim (deadline r) [ none ↦ false | some u ↦ u =ℕ t ]

abbrev IsClean : String → PendingRoot → Type 0
IsClean d r = r.dirty ≡ false

-- What `earliest` says of the roots.
abbrev Earliest : Option ℕ → Roots → Type 0
Earliest none rs = On IsClean rs
Earliest (some t) rs = On (NotBefore t) rs × (any (is_at t) rs ≡ true)

Earliest-clean :
    (d : String) (r : PendingRoot) (rs : Roots) (least : Option ℕ)
    → r.dirty ≡ false
    → Earliest least rs
    → Earliest least ((d, r) ∷ rs)
Earliest-clean d r rs none clean h = (clean, h)
Earliest-clean d r rs (some t) clean h =
    (((λ dirty u is. ground (arith, clean, dirty)), h.0), ground (arith, h.1))

-- The lesser of a deadline and the least of the others.
abbrev lesser : ℕ → Option ℕ → ℕ
lesser t least = elim least [ none ↦ t | some u ↦ min t u ]

Earliest-dirty :
    (d : String) (r : PendingRoot) (rs : Roots) (t : ℕ) (least : Option ℕ)
    → r.dirty ≡ true
    → deadline r ≡ some t
    → Earliest least rs
    → Earliest (some (lesser t least)) ((d, r) ∷ rs)
Earliest-dirty d r rs t none dirty at h = (
  (
    (λ _ u is. ground (arith, at, is)),
    On-implies _ _ (λ k q clean dirty u is. ground (arith, clean, dirty)) rs h,
  ),
  ground (arith, dirty, at),
)
Earliest-dirty d r rs t (some u) dirty at h = (
  (
    (λ _ v is. ground (arith, at, is)),
    On-implies _ _ (λ k q late dirty v is. ground (arith, late dirty v is)) rs h.0,
  ),
  ground (arith, dirty, at, h.1),
)

earliest-Earliest : (rs : Roots) (o : Option ℕ) → earliest rs ≡ some o → Earliest o rs
unfolding earliest
earliest-Earliest [] o h = subst (λ z. Earliest z []) (some-injective _ _ h) tt
earliest-Earliest ((d, r) ∷ rs) o h = elim (Option-cases (earliest rs)) [
  | inl fault ↦ ground (arith, h, fault)
  | inr (least, is) ↦ elim (Bool-cases r.dirty) [
    | inl dirty ↦ elim (Option-cases (deadline r)) [
      | inl fault ↦ ground (arith, h, is, dirty, fault)
      | inr (t, at) ↦
          subst (λ z. Earliest z ((d, r) ∷ rs)) {x = some (lesser t least)}
            (ground (arith, h, is, dirty, at))
            (Earliest-dirty d r rs t least dirty at (earliest-Earliest rs least is))
    ]
    | inr clean ↦
        subst (λ z. Earliest z ((d, r) ∷ rs)) {x = least} (ground (arith, h, is, clean))
          (Earliest-clean d r rs least clean (earliest-Earliest rs least is))
  ]
]

timeout-some :
    (now t : ℕ) (s : Schedule)
    → timeout now s ≡ some (some t)
    → (least : ℕ) × ((earliest s.roots ≡ some (some least)) × (t ≡ least - now))
unfolding timeout
timeout-some now t s h = elim (Option-cases (earliest s.roots)) [
  | inl fault ↦ ground (arith, h, fault)
  | inr (o, is) ↦ elim (Option-cases o) [
    | inl quiet_ ↦ ground (arith, h, is, quiet_)
    | inr (least, at) ↦ (least, (is ∙ ap some at, ground (arith, h, is, at)))
  ]
]

timeout-none : (now : ℕ) (s : Schedule) → timeout now s ≡ some none → earliest s.roots ≡ some none
unfolding timeout
timeout-none now s h = ground arith

Waiting-early :
    (now least : ℕ) (s : Schedule)
    → now < least
    → On (IsSound s.generation) s.roots
    → On (NotBefore least) s.roots
    → On (Waiting now) s.roots
Waiting-early now least s early sound late =
    On-implies _ _ (λ d r q. NotBefore-Waiting now least s.generation d r early q.0 q.1) s.roots
      (On-both (IsSound s.generation) (NotBefore least) s.roots sound late)

-- Before the timeout has passed, no root is ready and no probe is due.
pub IsIdle-before_timeout :
    (w : Watch) (now t u : ℕ)
    → Reach initial w
    → timeout now w.schedule ≡ some (some t)
    → now ≤ u
    → u < now + t
    → IsIdle u w.schedule
IsIdle-before_timeout w now t u reach h after before =
    let sound = (Reach-AreSound w reach).roots in
    let (least, (is, rest)) = timeout-some now t w.schedule h in
    Waiting-IsIdle u w.schedule (
      Waiting-early u least w.schedule (omega (arith, after, before, rest)) sound
        (earliest-Earliest w.schedule.roots (some least) is).0)

-- Without a timeout no root is ready and no probe is due at any time.
pub IsIdle-without_timeout :
    (w : Watch) (now u : ℕ)
    → Reach initial w
    → timeout now w.schedule ≡ some none
    → IsIdle u w.schedule
IsIdle-without_timeout w now u reach h = Waiting-IsIdle u w.schedule (
    Waiting-early u (u + 1) w.schedule (omega arith) (Reach-AreSound w reach).roots (
      On-implies _ _ (λ d r clean dirty t is. ground (arith, clean, dirty)) w.schedule.roots
        (earliest-Earliest w.schedule.roots none (timeout-none now w.schedule h))))

any-split :
    (p q z : PendingRoot → Bool) (rs : Roots)
    → ((r : PendingRoot) → p r ≡ true → (q r ≡ true) ⊎ (z r ≡ true))
    → any p rs ≡ true
    → (any q rs ≡ true) ⊎ (any z rs ≡ true)
any-split p q z [] h is = ground arith
any-split p q z ((d, r) ∷ rs) h is = elim (Bool-cases (p r)) [
  | inl here ↦ elim (h r here) [ inl l ↦ inl (ground (arith, l)) | inr l ↦ inr (ground (arith, l)) ]
  | inr other ↦ elim (any-split p q z rs h (ground (arith, is, other))) [
    | inl l ↦ inl (ground (arith, l))
    | inr l ↦ inr (ground (arith, l))
  ]
]

is_at-works :
    (now t : ℕ) (r : PendingRoot)
    → t ≤ now
    → is_at t r ≡ true
    → (is_ready now r ≡ true) ⊎ (is_due now r ≡ true)
unfolding deadline is_ready probe_due
is_at-works now t r past is = elim (Option-cases r.lock) [
  | inl free ↦ inl (ground (arith, is, free, past))
  | inr (l, waits) ↦ elim (Option-cases r.probe_at) [
    | inl never ↦ ground (arith, is, waits, never)
    | inr (u, at) ↦ inr (ground (arith, is, waits, at, past))
  ]
]

-- When the timeout has passed, some root is ready or some probe is due.
pub work_at_timeout :
    (w : Watch) (now t : ℕ)
    → timeout now w.schedule ≡ some (some t)
    → (ready (now + t) w.schedule ≢ []) ⊎ (probes (now + t) w.schedule ≢ some [])
unfolding ready probes
work_at_timeout w now t h =
    let (least, (is, rest)) = timeout-some now t w.schedule h in
    elim (any-split (is_at least) (is_ready (now + t)) (is_due (now + t)) w.schedule.roots
      (λ r. is_at-works (now + t) least r (omega (arith, rest)))
      (earliest-Earliest w.schedule.roots (some least) is).1) [
        | inl a ↦ inl (
            ready_targets-any (now + t) (sort_roots w.schedule.roots)
              (any-sort_roots (is_ready (now + t)) w.schedule.roots ∙ a))
        | inr a ↦ inr (probes_loop-due (now + t) w.schedule.roots [] a)
      ]
