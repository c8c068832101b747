-- ===== src/Watcher/Idle.antt =====
-- src/patchharbor_watcher/scheduling.py: when roots are ready and probes are due.
use mathlib.Core.Option.{some-injective}
use patch_harbor.Base.{
  ap, ◌∙◌, inl, inr, ◌≢◌, ℕ, String, ◌≡◌, refl, ◌≤◌, ◌<◌, Bool, true, false, Option, none, some,
  List, [], ◌∷◌, ◌||◌, arith, is_some, On, On-implies, Option-cases,
}
use patch_harbor.Watcher.Protocol.{LockReference, lock_reference_eq}
use patch_harbor.Watcher.Schedule.{
  PendingRoot, Roots, Schedule, is_ready, insert_root, sort_roots, ready_targets, ready, probe_due,
  add_once, probes_loop, probes, deadline,
}
use patch_harbor.Watcher.Roots.{On-sort_roots}
use patch_harbor.Watcher.Soundness.{IsSound}

-- Nothing is ready and no probe is due.
abbrev pub IsIdle : ℕ → Schedule → Type 0
IsIdle now s = (ready now s ≡ []) × (probes now s ≡ some [])

-- No work of the root before a time.
abbrev pub Waiting : ℕ → String → PendingRoot → Type 0
Waiting now d r = (is_ready now r ≡ false) × (probe_due now r ≡ some none)

ready_targets-Waiting :
    (now : ℕ) (rs : Roots) → On (λ d r. is_ready now r ≡ false) rs → ready_targets now rs ≡ []
unfolding ready_targets
ready_targets-Waiting now [] h = refl
ready_targets-Waiting now ((d, r) ∷ rs) h = ground (arith, h.0, ready_targets-Waiting now rs h.1)

probes_loop-Waiting :
    (now : ℕ) (rs : Roots)
    → On (λ d r. probe_due now r ≡ some none) rs
    → probes_loop now rs [] ≡ some []
unfolding probes_loop
probes_loop-Waiting now [] h = refl
probes_loop-Waiting now ((d, r) ∷ rs) h = ground (arith, h.0, probes_loop-Waiting now rs h.1)

pub Waiting-IsIdle : (now : ℕ) (s : Schedule) → On (Waiting now) s.roots → IsIdle now s
unfolding ready probes
Waiting-IsIdle now s h = (
  ready_targets-Waiting now (sort_roots s.roots) (
      On-sort_roots (λ d r. is_ready now r ≡ false) s.roots
        (On-implies _ _ (λ d r q. q.0) s.roots h)),
  probes_loop-Waiting now s.roots (On-implies _ _ (λ d r q. q.1) s.roots h),
)

-- A dirty root has no deadline before `least`.
abbrev pub NotBefore : ℕ → String → PendingRoot → Type 0
NotBefore least d r = r.dirty ≡ true → (t : ℕ) → deadline r ≡ some t → least ≤ t

pub NotBefore-Waiting :
    (now least n : ℕ) (d : String) (r : PendingRoot)
    → now < least
    → IsSound n d r
    → NotBefore least d r
    → Waiting now d r
unfolding is_ready probe_due deadline
NotBefore-Waiting now least n d r early sound h = elim (Option-cases r.lock) [
  | inl free ↦
      let late : r.dirty ≡ true → least ≤ r.due = λ dirty. h dirty r.due (ground (arith, free)) in
      (ground (arith, free, early, late), ground (arith, free))
  | inr (l, waits) ↦ elim (Option-cases r.probe_at) [
    | inl never ↦ ground (arith, waits, never, sound.timed)
    | inr (t, at) ↦
        let late : least ≤ t = h (sound.waiting (ap is_some waits)) t (ground (arith, waits, at)) in
        (ground (arith, waits), ground (arith, waits, at, early, late))
  ]
]

-- Some root passes a test.
abbrev pub any : (PendingRoot → Bool) → Roots → Bool
any p [] = false
any p ((d, r) ∷ rs) = p r || any p rs

any-insert_root :
    (p : PendingRoot → Bool) (d : String) (r : PendingRoot) (rs : Roots)
    → any p (insert_root (d, r) rs) ≡ p r || any p rs
unfolding insert_root
any-insert_root p d r [] = refl
any-insert_root p d r ((k, q) ∷ rs) = ground (arith, any-insert_root p d r rs)

pub any-sort_roots : (p : PendingRoot → Bool) (rs : Roots) → any p (sort_roots rs) ≡ any p rs
unfolding sort_roots
any-sort_roots p [] = refl
any-sort_roots p ((d, r) ∷ rs) =
    any-insert_root p d r (sort_roots rs) ∙ ap (λ b. p r || b) (any-sort_roots p rs)

pub ready_targets-any :
    (now : ℕ) (rs : Roots) → any (is_ready now) rs ≡ true → ready_targets now rs ≢ []
unfolding ready_targets
ready_targets-any now [] h none_ready = ground arith
ready_targets-any now ((d, r) ∷ rs) h none_ready = ground (arith, ready_targets-any now rs)

-- Whether the probe of a root is due.
abbrev pub is_due : ℕ → PendingRoot → Bool
is_due now r = elim (probe_due now r) [ some (some l) ↦ true | _ ↦ false ]

add_once-some :
    (found : Option LockReference) (seen : List LockReference)
    → seen ≢ []
    → add_once found seen ≢ []
add_once-some none seen h = h
add_once-some (some l) [] h = λ _. h refl
add_once-some (some l) (m ∷ ms) h = λ is. ground (arith, is)

add_once-found : (l : LockReference) (seen : List LockReference) → add_once (some l) seen ≢ []
add_once-found l [] = λ is. ground (arith, is)
add_once-found l (m ∷ ms) = λ is. ground (arith, is)

probes_loop-seen :
    (now : ℕ) (rs : Roots) (seen : List LockReference)
    → seen ≢ []
    → probes_loop now rs seen ≢ some []
unfolding probes_loop
probes_loop-seen now [] seen h = λ is. h (some-injective _ _ is)
probes_loop-seen now ((d, r) ∷ rs) seen h =
    elim (probe_due now r)
      as (λ o.
        (elim o [ none ↦ none | some found ↦ probes_loop now rs (add_once found seen) ])
        ≢ some []) [
          | none ↦ λ is. ground (arith, is)
          | some found ↦ probes_loop-seen now rs (add_once found seen) (add_once-some found seen h)
        ]

pub probes_loop-due :
    (now : ℕ) (rs : Roots) (seen : List LockReference)
    → any (is_due now) rs ≡ true
    → probes_loop now rs seen ≢ some []
unfolding probes_loop
probes_loop-due now [] seen = λ h is. ground (arith, h)
probes_loop-due now ((d, r) ∷ rs) seen =
    elim (probe_due now r)
      as (λ o.
        (elim o [ some (some l) ↦ true | _ ↦ false ]) || any (is_due now) rs ≡ true
        → (elim o [ none ↦ none | some found ↦ probes_loop now rs (add_once found seen) ])
          ≢ some []) [
            | none ↦ λ h is. ground (arith, is)
            | some none ↦ λ h. probes_loop-due now rs seen h
            | some (some l) ↦
                λ h. probes_loop-seen now rs (add_once (some l) seen) (add_once-found l seen)
          ]
