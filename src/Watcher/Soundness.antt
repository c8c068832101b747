-- ===== src/Watcher/Soundness.antt =====
-- src/patchharbor_watcher/scheduling.py: what every operation keeps of the roots.
use mathlib.Core.Path.{subst⁻¹}
use patch_harbor.Base.{
  ap, ◌∙◌, ◌⊎◌, inl, inr, option_eq, ℕ, String, ◌≡◌, refl, sym, ◌+◌, ◌≤◌, true, false, Option, none,
  some, List, [], ◌∷◌, arith, string_eq, lookup, adjust, is_some, On, On-implies, On-insert,
  On-adjust, IsUnique, IsUnique-insert, IsUnique-adjust,
}
use patch_harbor.Watcher.Roots.{IsUnique-on_roots, On-on_roots}
use patch_harbor.Watcher.Protocol.{LockReference, ExchangeWatchTarget, lock_reference_eq}
use patch_harbor.Watcher.Schedule.{
  PendingRoot, Schedule, Snapshot, replace, replace_loop, changed, fresh, touched, on_roots, relock,
  probed_root, probed, released, probe_failed,
}

-- A root that stands under its own directory, is no younger than the counter, has a time for its
-- probe exactly while it waits for a lock, is dirty then, and whose backoff is within its bounds.
pub record IsSound (counter : ℕ) (directory : String) (r : PendingRoot) : Type 0 where
  pub named : r.target.directory ≡ directory
  pub born : r.generation ≤ counter
  pub timed : is_some r.lock ≡ is_some r.probe_at
  pub waiting : is_some r.lock ≡ true → r.dirty ≡ true
  pub least : 5000 ≤ r.backoff
  pub most : r.backoff ≤ 300000

-- What a worker was started on and has not changed since waits for no lock.
abbrev pub IsFree : Snapshot → String → PendingRoot → Type 0
IsFree running directory r =
    On (λ k e. k ≡ directory → r.generation ≡ e.1 → is_some r.lock ≡ false) running

pub record AreSound (s : Schedule) (running : Snapshot) : Type 0 where
  pub unique : IsUnique s.roots
  pub roots : On (IsSound s.generation) s.roots
  pub free : On (IsFree running) s.roots
  pub started : On (λ k e. e.1 ≤ s.generation) running

IsSound-later : (n : ℕ) (d : String) (r : PendingRoot) → IsSound n d r → IsSound (n + 1) d r
IsSound-later n d r h = record {
  named = h.named;
  born = omega (arith, h.born);
  timed = h.timed;
  waiting = h.waiting;
  least = h.least;
  most = h.most;
}

-- Entries that are no younger than `n` say nothing of a root that is.
IsFree-younger :
    (n : ℕ) (running : Snapshot) (d : String) (r : PendingRoot)
    → r.generation ≡ n + 1
    → On (λ k e. e.1 ≤ n) running
    → IsFree running d r
IsFree-younger n running d r young old =
    On-implies (λ k e. e.1 ≤ n) _ (λ k e h _ same. ground (arith, h, same, young)) running old

older : (n : ℕ) (running : Snapshot) → On (λ k e. e.1 ≤ n) running → On (λ k e. e.1 ≤ n + 1) running
older n running old = On-implies (λ k e. e.1 ≤ n) _ (λ k e h. omega (arith, h)) running old

pub AreSound-changed :
    (directory : String) (now : ℕ) (s : Schedule) (running : Snapshot)
    → AreSound s running
    → AreSound (changed directory now s) running
unfolding changed
AreSound-changed directory now s running h = split (lookup directory s.roots)
  where
    split :
        (o : Option PendingRoot)
        → AreSound
            (elim o [
              | none ↦ s
              | some _ ↦ record {
                generation = s.generation + 1;
                roots = adjust directory (touched (s.generation + 1) now) s.roots;
              }
            ])
            running
    split none = h
    split (some _) = record {
      unique = IsUnique-adjust directory _ s.roots h.unique;
      roots =
          On-adjust (IsSound s.generation) (IsSound (s.generation + 1)) directory _
            (IsSound-later s.generation)
            (λ j same r k. record {
              named = k.named;
              born = omega arith;
              timed = k.timed;
              waiting = λ _. refl;
              least = k.least;
              most = k.most;
            })
            s.roots h.roots;
      free =
          On-adjust (IsFree running) (IsFree running) directory _ (λ j r k. k)
            (λ j same r k.
              IsFree-younger s.generation running j (touched (s.generation + 1) now r) refl
                h.started)
            s.roots h.free;
      started = older s.generation running h.started;
    }

AreSound-replace_loop :
    (targets : List ExchangeWatchTarget) (now : ℕ) (s : Schedule) (running : Snapshot)
    → AreSound s running
    → AreSound (replace_loop targets now s) running
unfolding replace_loop
AreSound-replace_loop [] now s running h = h
AreSound-replace_loop (t ∷ ts) now s running h = AreSound-replace_loop ts now _ running (record {
  unique = IsUnique-insert t.directory _ s.roots h.unique;
  roots =
      On-insert (IsSound (s.generation + 1)) t.directory _ s.roots
        (λ j same. record {
          named = sym same;
          born = omega arith;
          timed = refl;
          waiting = λ _. refl;
          least = omega arith;
          most = omega arith;
        })
        (On-implies _ _ (IsSound-later s.generation) s.roots h.roots);
  free =
      On-insert (IsFree running) t.directory _ s.roots
        (λ j same.
          IsFree-younger s.generation running j (fresh t (s.generation + 1) now) refl h.started)
        h.free;
  started = older s.generation running h.started;
})

pub AreSound-replace :
    (targets : List ExchangeWatchTarget) (now : ℕ) (s : Schedule) (running : Snapshot)
    → AreSound s running
    → AreSound (replace targets now s) running
unfolding replace
AreSound-replace targets now s running h =
    AreSound-replace_loop targets now _ running
      (record { unique = tt; roots = tt; free = tt; started = h.started })

AreSound-on_roots :
    (f : PendingRoot → PendingRoot) (s : Schedule) (running : Snapshot)
    → ((n : ℕ) (d : String) (r : PendingRoot) → IsSound n d r → IsSound n d (f r))
    → ((d : String) (r : PendingRoot) → IsFree running d r → IsFree running d (f r))
    → AreSound s running
    → AreSound (record s { roots = on_roots f s.roots }) running
AreSound-on_roots f s running sound free h = record {
  unique = IsUnique-on_roots f s.roots h.unique;
  roots = On-on_roots _ _ f (sound s.generation) s.roots h.roots;
  free = On-on_roots _ _ f free s.roots h.free;
  started = h.started;
}

pub relock-generation :
    (blocked_on : Option LockReference) (now : ℕ) (r : PendingRoot)
    → (relock blocked_on now r).generation ≡ r.generation
unfolding relock
relock-generation none now r = refl
relock-generation (some l) now r = refl

-- A probe touches only what waits for its lock.
pub probed_root-cases :
    (l : LockReference) (blocked_on : Option LockReference) (now : ℕ) (r : PendingRoot)
    → (probed_root l blocked_on now r ≡ r)
      ⊎ ((r.lock ≡ some l) × (probed_root l blocked_on now r ≡ relock blocked_on now r))
unfolding probed_root
probed_root-cases l blocked_on now r = ground arith

pub released-cases :
    (l : LockReference) (r : PendingRoot)
    → (released l r ≡ r)
      ⊎ ((r.lock ≡ some l)
          × (released l r ≡ record r { lock = none; probe_at = none; dirty = false }))
unfolding released
released-cases l r = ground arith

relock-IsSound :
    (blocked_on : Option LockReference) (now n : ℕ) (d : String) (r : PendingRoot)
    → r.dirty ≡ true
    → IsSound n d r
    → IsSound n d (relock blocked_on now r)
unfolding relock
relock-IsSound none now n d r dirty h = record {
  named = h.named;
  born = h.born;
  timed = refl;
  waiting = λ same. dirty;
  least = h.least;
  most = h.most;
}
relock-IsSound (some m) now n d r dirty h = record {
  named = h.named;
  born = h.born;
  timed = refl;
  waiting = λ same. dirty;
  least = omega (arith, h.least);
  most = omega (arith, h.most);
}

-- What changes only roots that wait for the lock keeps the others free.
IsFree-locked :
    (f : PendingRoot → PendingRoot) (l : LockReference) (running : Snapshot) (d : String)
    (r : PendingRoot)
    → (f r ≡ r) ⊎ ((r.lock ≡ some l) × ((f r).generation ≡ r.generation))
    → IsFree running d r
    → IsFree running d (f r)
IsFree-locked f l running d r (inl same) free = subst⁻¹ (IsFree running d) same free
IsFree-locked f l running d r (inr (locked, same)) free =
    On-implies _ _ (λ k e h named young. ground (arith, h named (sym same ∙ young), locked)) running
      free

pub AreSound-probed :
    (l : LockReference) (blocked_on : Option LockReference) (now : ℕ) (s : Schedule)
    (running : Snapshot)
    → AreSound s running
    → AreSound (probed l blocked_on now s) running
unfolding probed
AreSound-probed l blocked_on now s running =
    AreSound-on_roots (probed_root l blocked_on now) s running
      (λ n d r h. elim (probed_root-cases l blocked_on now r) [
        | inl same ↦ subst⁻¹ (IsSound n d) same h
        | inr c ↦
            subst⁻¹ (IsSound n d) c.1 (relock-IsSound blocked_on now n d r (h.waiting (rw c.0)) h)
      ])
      (λ d r.
        IsFree-locked (probed_root l blocked_on now) l running d r
          (elim (probed_root-cases l blocked_on now r) [
            | inl same ↦ inl same
            | inr c ↦ inr (c.0, ap (λ q. q.generation) c.1 ∙ relock-generation blocked_on now r)
          ]))

pub AreSound-probe_failed :
    (l : LockReference) (s : Schedule) (running : Snapshot)
    → AreSound s running
    → AreSound (probe_failed l s) running
unfolding probe_failed
AreSound-probe_failed l s running =
    AreSound-on_roots (released l) s running
      (λ n d r h. elim (released-cases l r) [
        | inl same ↦ subst⁻¹ (IsSound n d) same h
        | inr c ↦ subst⁻¹ (IsSound n d) c.1 (record {
          named = h.named;
          born = h.born;
          timed = refl;
          waiting = λ locked. ground arith;
          least = h.least;
          most = h.most;
        })
      ])
      (λ d r. IsFree-locked (released l) l running d r (elim (released-cases l r) [
        | inl same ↦ inl same
        | inr c ↦ inr (c.0, ap (λ q. q.generation) c.1)
      ]))
