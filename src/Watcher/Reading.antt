-- ===== src/Watcher/Reading.antt =====
-- src/patchharbor_watcher/protocol.py: what is read is told.
use mathlib.Core.Path.{subst⁻¹}
use patch_harbor.Base.{
  String, ◌≡◌, refl, inl, inr, true, not, is_some, Option, none, some, [], ◌∷◌, arith,
  if◌then◌else◌, Result, ok, Answers, Answers-then, Answers-require, Answers-implies, Bool-cases,
  ◌==◌, same-key, string_eq,
}
use patch_harbor.Models.{ValueError, value_error}
use patch_harbor.Json.{
  Json, null, boolean, number, whole_float, other_number, text, array, object, get, has_exactly,
}
use patch_harbor.Watcher.Protocol.{
  LockKind, registry, repository, exchange_state, LockReference, Status, no_candidate,
  was_attempted, locked, dry_run, error, Progress, progress, is_locked,
}
use patch_harbor.Watcher.Messages.{
  is_uuid, kind_of_text, lock_of_kind, lock_reference, read_lock, status_of, is_version_1,
  progress_fields, read_progress,
}
use patch_harbor.Watcher.Documents.{
  Names, registry_name, repository_name, exchange_state_name, Spells, no_candidate_name,
  attempted_name, locked_name, dry_run_name, error_name, IsHeld, of_repository, of_other, Tells,
  no_lock, one_lock, IsTold, IsConsistent,
}

kind_of_text-Names : (s : String) → Answers (Names s) (kind_of_text s)
unfolding kind_of_text
kind_of_text-Names s = elim (Bool-cases (s == "registry")) [
  | inl a ↦
      rw (a, kind_of_text) (subst⁻¹ (λ x. Names x registry) (same-key s "registry" a) registry_name)
  | inr a ↦ elim (Bool-cases (s == "repository")) [
    | inl b ↦
        rw (a, b, kind_of_text)
          (subst⁻¹ (λ x. Names x repository) (same-key s "repository" b) repository_name)
    | inr b ↦ elim (Bool-cases (s == "exchange_state")) [
      | inl c ↦
          rw (a, b, c, kind_of_text)
            (subst⁻¹ (λ x. Names x exchange_state) (same-key s "exchange_state" c)
              exchange_state_name)
      | inr c ↦ rw (a, b, c, kind_of_text) tt
    ]
  ]
]

named : (s t : String) (status : Status) → s == t ≡ true → Spells t status → Spells s status
named s t status h spelled = subst⁻¹ (λ x. Spells x status) (same-key s t h) spelled

-- One branch of the reading of a status.
branch :
    (s t : String) (status : Status) (rest : Result ValueError Status)
    → Spells t status
    → Answers (Spells s) rest
    → Answers (Spells s) (if s == t then ok status else rest)
branch s t status rest spelled h = elim (Bool-cases (s == t)) [
  | inl same ↦ rw same (named s t status same spelled)
  | inr other ↦ rw other h
]

status_of-Spells :
    (o : Option Json)
    → Answers (λ status. (s : String) × (o ≡ some (text s)) × Spells s status) (status_of o)
unfolding status_of
status_of-Spells (some (text s)) =
    Answers-implies (Spells s) _ (status_of (some (text s)))
      (branch s "no_candidate" no_candidate _ no_candidate_name (
        branch s "attempted" was_attempted _ attempted_name (
          branch s "locked" locked _ locked_name
            (branch s "dry_run" dry_run _ dry_run_name (branch s "error" error _ error_name tt)))))
      λ status h. (s, refl, h)
status_of-Spells none = tt
status_of-Spells (some null) = tt
status_of-Spells (some (boolean b)) = tt
status_of-Spells (some (number n)) = tt
status_of-Spells (some (whole_float n)) = tt
status_of-Spells (some other_number) = tt
status_of-Spells (some (array xs)) = tt
status_of-Spells (some (object fs)) = tt

is_version_1-eq : (o : Option Json) → is_version_1 o ≡ true → o ≡ some (number 1)
unfolding is_version_1
is_version_1-eq none h = cc
is_version_1-eq (some (number n)) h = ground (arith, h)
is_version_1-eq (some (text s)) h = cc
is_version_1-eq (some null) h = cc
is_version_1-eq (some (boolean b)) h = cc
is_version_1-eq (some (whole_float n)) h = cc
is_version_1-eq (some other_number) h = cc
is_version_1-eq (some (array xs)) h = cc
is_version_1-eq (some (object fs)) h = cc

lock_of_kind-HasKind :
    (k : LockKind) (j : Json) → Answers (λ l. (l.kind ≡ k) × IsHeld l j) (lock_of_kind k j)
unfolding lock_of_kind
lock_of_kind-HasKind repository (text i) =
    Answers-require (λ l. (l.kind ≡ repository) × IsHeld l (text i)) (is_uuid i) value_error
      (ok (record { kind = repository; repo_id = some i }))
      λ canonical. (refl, of_repository canonical)
lock_of_kind-HasKind repository null = tt
lock_of_kind-HasKind repository (boolean b) = tt
lock_of_kind-HasKind repository (number n) = tt
lock_of_kind-HasKind repository (whole_float n) = tt
lock_of_kind-HasKind repository other_number = tt
lock_of_kind-HasKind repository (array xs) = tt
lock_of_kind-HasKind repository (object fs) = tt
lock_of_kind-HasKind registry null = (refl, of_other (λ h. cc))
lock_of_kind-HasKind registry (text i) = tt
lock_of_kind-HasKind registry (boolean b) = tt
lock_of_kind-HasKind registry (number n) = tt
lock_of_kind-HasKind registry (whole_float n) = tt
lock_of_kind-HasKind registry other_number = tt
lock_of_kind-HasKind registry (array xs) = tt
lock_of_kind-HasKind registry (object fs) = tt
lock_of_kind-HasKind exchange_state null = (refl, of_other (λ h. cc))
lock_of_kind-HasKind exchange_state (text i) = tt
lock_of_kind-HasKind exchange_state (boolean b) = tt
lock_of_kind-HasKind exchange_state (number n) = tt
lock_of_kind-HasKind exchange_state (whole_float n) = tt
lock_of_kind-HasKind exchange_state other_number = tt
lock_of_kind-HasKind exchange_state (array xs) = tt
lock_of_kind-HasKind exchange_state (object fs) = tt

-- What the two fields of a lock say.
record HasFields (kind repo_id : Option Json) (l : LockReference) : Type 0 where
  word : String
  kind_field : kind ≡ some (text word)
  kind_named : Names word l.kind
  repo : Json
  repo_field : repo_id ≡ some repo
  held : IsHeld l repo

lock_reference-HasFields :
    (kind repo_id : Option Json) → Answers (HasFields kind repo_id) (lock_reference kind repo_id)
unfolding lock_reference
lock_reference-HasFields (some (text s)) (some j) =
    Answers-then (Names s) (HasFields (some (text s)) (some j)) (kind_of_text s) _
      (kind_of_text-Names s)
      λ k is_named.
        Answers-implies (λ l. (l.kind ≡ k) × IsHeld l j) (HasFields (some (text s)) (some j))
          (lock_of_kind k j) (lock_of_kind-HasKind k j)
          λ l h. record {
            word = s;
            kind_field = refl;
            kind_named = subst⁻¹ (Names s) h.0 is_named;
            repo = j;
            repo_field = refl;
            held = h.1;
          }
lock_reference-HasFields none j = tt
lock_reference-HasFields (some null) j = tt
lock_reference-HasFields (some (boolean b)) j = tt
lock_reference-HasFields (some (number n)) j = tt
lock_reference-HasFields (some (whole_float n)) j = tt
lock_reference-HasFields (some other_number) j = tt
lock_reference-HasFields (some (array xs)) j = tt
lock_reference-HasFields (some (object fs)) j = tt
lock_reference-HasFields (some (text s)) none = tt

-- The lock that a field tells
abbrev ReadsLock : Option Json → Option LockReference → Type 0
ReadsLock o l = (j : Json) × (o ≡ some j) × Tells l j

read_lock-ReadsLock : (o : Option Json) → Answers (ReadsLock o) (read_lock o)
unfolding read_lock
read_lock-ReadsLock (some null) = (null, refl, no_lock)
read_lock-ReadsLock (some (object fs)) =
    let P = ReadsLock (some (object fs)) in
    Answers-require P (has_exactly ("kind" ∷ "repo_id" ∷ []) fs) value_error _ λ exact.
      Answers-then (HasFields (get fs "kind") (get fs "repo_id")) P
        (lock_reference (get fs "kind") (get fs "repo_id")) _
        (lock_reference-HasFields (get fs "kind") (get fs "repo_id"))
        λ l h. (object fs, refl, one_lock exact h.kind_field h.kind_named h.repo_field h.held)
read_lock-ReadsLock none = tt
read_lock-ReadsLock (some (text s)) = tt
read_lock-ReadsLock (some (boolean b)) = tt
read_lock-ReadsLock (some (number n)) = tt
read_lock-ReadsLock (some (whole_float n)) = tt
read_lock-ReadsLock (some other_number) = tt
read_lock-ReadsLock (some (array xs)) = tt

is_locked-IsConsistent :
    (s : Status) (o : Option LockReference)
    → (if is_locked s then is_some o else not (is_some o)) ≡ true
    → IsConsistent s o
is_locked-IsConsistent locked (some l) h = inl (refl, refl)
is_locked-IsConsistent locked none h = ground (arith, h)
is_locked-IsConsistent no_candidate none h = inr ((λ e. cc), refl)
is_locked-IsConsistent was_attempted none h = inr ((λ e. cc), refl)
is_locked-IsConsistent dry_run none h = inr ((λ e. cc), refl)
is_locked-IsConsistent error none h = inr ((λ e. cc), refl)
is_locked-IsConsistent no_candidate (some l) h = ground (arith, h)
is_locked-IsConsistent was_attempted (some l) h = ground (arith, h)
is_locked-IsConsistent dry_run (some l) h = ground (arith, h)
is_locked-IsConsistent error (some l) h = ground (arith, h)

pub read_progress-IsTold : (j : Json) → Answers (λ p. IsTold p j) (read_progress j)
unfolding read_progress progress
read_progress-IsTold (object fs) =
    let P = λ (p : Progress). IsTold p (object fs) in
    Answers-require P (has_exactly progress_fields fs) value_error _ λ exact.
      Answers-require P (is_version_1 (get fs "version")) value_error _ λ version.
        Answers-then (ReadsLock (get fs "blocked_on")) P (read_lock (get fs "blocked_on")) _
          (read_lock-ReadsLock (get fs "blocked_on"))
          λ lock reads.
            Answers-then
              (λ status. (s : String) × (get fs "status" ≡ some (text s)) × Spells s status) P
              (status_of (get fs "status")) _ (status_of-Spells (get fs "status"))
              λ status is.
                Answers-require P (if is_locked status then is_some lock else not (is_some lock))
                  value_error _
                  λ fits. record {
                    fields = fs;
                    is_object = refl;
                    exact = exact;
                    version = is_version_1-eq (get fs "version") version;
                    word = is.0;
                    status = is.1;
                    spelled = is.2;
                    lock = reads.0;
                    blocked_on = reads.1;
                    told = reads.2;
                    consistent = is_locked-IsConsistent status lock fits;
                  }
read_progress-IsTold null = tt
read_progress-IsTold (boolean b) = tt
read_progress-IsTold (number n) = tt
read_progress-IsTold (whole_float n) = tt
read_progress-IsTold other_number = tt
read_progress-IsTold (text s) = tt
read_progress-IsTold (array xs) = tt
