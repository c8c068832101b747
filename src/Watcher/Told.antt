-- ===== src/Watcher/Told.antt =====
-- src/patchharbor_watcher/protocol.py and apply_boundary.py: what a worker has said when the watcher
-- takes its progress for anything but a failure.
use patch_harbor.Base.{
  String, ◌≡◌, ◌≢◌, refl, ap, ◌∙◌, ◌⊎◌, inl, inr, true, Option, none, some, Result, ok, err,
  Answers, bind_ok, string_eq, string_discrete,
}
use patch_harbor.Models.{ValueError}
use patch_harbor.Json.{Json, null, number, text, Fields, get}
use patch_harbor.Watcher.Protocol.{
  LockKind, registry, repository, exchange_state, LockReference, Status, no_candidate,
  was_attempted, locked, dry_run, error, Progress, progress,
}
use patch_harbor.Watcher.Messages.{
  kind_of_text, lock_of_kind, lock_reference, read_lock, status_of, is_version_1, read_progress,
  failure, or_failure, completion_progress,
}
use patch_harbor.Watcher.Documents.{
  Names, registry_name, repository_name, exchange_state_name, Spells, no_candidate_name,
  attempted_name, locked_name, dry_run_name, error_name, IsHeld, of_repository, of_other, Tells,
  no_lock, one_lock, IsTold, IsConsistent,
}
use patch_harbor.Watcher.Reading.{read_progress-IsTold}

-- The document of the progress in what the worker returned, if there is one.
abbrev pub ToldBy : Option Fields → Progress → Type 0
ToldBy response p =
    (fs : Fields) × (document : Json) × (response ≡ some fs)
    × (get fs "watcher_progress" ≡ some document)
    × IsTold p document

by_document :
    (fs : Fields) (document : Json) (r : Result ValueError Progress)
    → get fs "watcher_progress" ≡ some document
    → Answers (λ p. IsTold p document) r
    → (or_failure r ≡ record { status = error; blocked_on = none })
      ⊎ ToldBy (some fs) (or_failure r)
unfolding or_failure
by_document fs document (ok p) is h = inr (fs, document, refl, is, h)
by_document fs document (err e) is h = inl refl

-- What is told is read.
Names-kind_of_text : {s : String} {k : LockKind} → Names s k → kind_of_text s ≡ ok k
unfolding kind_of_text string_eq string_discrete
Names-kind_of_text registry_name = refl
Names-kind_of_text repository_name = refl
Names-kind_of_text exchange_state_name = refl

Spells-status_of :
    {s : String} {status : Status} → Spells s status → status_of (some (text s)) ≡ ok status
unfolding status_of string_eq string_discrete
Spells-status_of no_candidate_name = refl
Spells-status_of attempted_name = refl
Spells-status_of locked_name = refl
Spells-status_of dry_run_name = refl
Spells-status_of error_name = refl

other_lock :
    (k : LockKind) → k ≢ repository → lock_of_kind k null ≡ ok (record { kind = k; repo_id = none })
unfolding lock_of_kind
other_lock registry h = refl
other_lock exchange_state h = refl
other_lock repository h = absurd (h refl)

IsHeld-lock_of_kind : {l : LockReference} {j : Json} → IsHeld l j → lock_of_kind l.kind j ≡ ok l
unfolding lock_of_kind
IsHeld-lock_of_kind (of_repository canonical) = rw canonical refl
IsHeld-lock_of_kind (of_other {k = k} other) = other_lock k other

lock_of_fields :
    (s : String) (j : Json) (l : LockReference)
    → Names s l.kind
    → IsHeld l j
    → lock_reference (some (text s)) (some j) ≡ ok l
unfolding lock_reference
lock_of_fields s j l is_named held =
    bind_ok (kind_of_text s) l.kind (λ k. lock_of_kind k j) (Names-kind_of_text is_named)
    ∙ IsHeld-lock_of_kind held

Tells-read_lock : {o : Option LockReference} {j : Json} → Tells o j → read_lock (some j) ≡ ok o
unfolding read_lock
Tells-read_lock no_lock = refl
Tells-read_lock (one_lock {l = l} {fs = fs} {s = s} {j = j} exact kind is_named repo held) =
    rw (exact, kind, repo, lock_of_fields s j l is_named held) refl

IsConsistent-progress :
    (s : Status) (o : Option LockReference)
    → IsConsistent s o
    → progress s o ≡ ok (record { status = s; blocked_on = o })
unfolding progress
IsConsistent-progress s o (inl (is, held)) = rw (is, held) refl
IsConsistent-progress locked o (inr (other, none_held)) = absurd (other refl)
IsConsistent-progress no_candidate o (inr (other, none_held)) = rw none_held refl
IsConsistent-progress was_attempted o (inr (other, none_held)) = rw none_held refl
IsConsistent-progress dry_run o (inr (other, none_held)) = rw none_held refl
IsConsistent-progress error o (inr (other, none_held)) = rw none_held refl

version_1 : (o : Option Json) → o ≡ some (number 1) → is_version_1 o ≡ true
unfolding is_version_1
version_1 o h = ap is_version_1 h

IsTold-read_progress :
    (p : Progress) (document : Json) → IsTold p document → read_progress document ≡ ok p
unfolding read_progress
IsTold-read_progress p document h =
    ap read_progress h.is_object
    ∙ rw
        (
          h.exact,
          version_1 (get h.fields "version") h.version,
          h.blocked_on,
          Tells-read_lock h.told,
          h.status,
          Spells-status_of h.spelled,
        )
        (IsConsistent-progress p.status p.blocked_on h.consistent)

ToldBy-completion_progress :
    (response : Option Fields) (p : Progress) → ToldBy response p → completion_progress response ≡ p
unfolding completion_progress or_failure
ToldBy-completion_progress response p (fs, document, is, field_is, told) =
    ap completion_progress is
    ∙ rw (field_is, completion_progress, IsTold-read_progress p document told) refl

failure_or_told :
    (response : Option Fields)
    → (completion_progress response ≡ record { status = error; blocked_on = none })
      ⊎ ToldBy response (completion_progress response)
unfolding completion_progress
failure_or_told none = inl refl
failure_or_told (some fs) = by_field (get fs "watcher_progress") refl
  where
    by_field :
        (o : Option Json)
        → get fs "watcher_progress" ≡ o
        → ((elim o [ none ↦ failure | some document ↦ or_failure (read_progress document) ])
            ≡ record { status = error; blocked_on = none })
          ⊎ ToldBy
              (some fs)
              (elim o [ none ↦ failure | some document ↦ or_failure (read_progress document) ])
    by_field none is = inl refl
    by_field (some document) is =
        by_document fs document (read_progress document) is (read_progress-IsTold document)

-- Whatever a worker returns, or nothing, the progress that the watcher takes from it is an error
-- without a lock, or is told by the document in it; and a progress that is told by it is the one taken.
-- Told is a progress by an object with exactly the three fields, in version 1, whose status is one of
-- the five words and whose lock is null or an object of exactly a kind and an ID, with a canonical UUID
-- for a repository and null for the other kinds, if it has a lock exactly when its status is `locked`.
pub completion_progress-ToldBy :
    (response : Option Fields)
    → ((completion_progress response ≡ record { status = error; blocked_on = none })
        ⊎ ToldBy response (completion_progress response))
      × ((p : Progress) → ToldBy response p → completion_progress response ≡ p)
completion_progress-ToldBy response =
    (failure_or_told response, ToldBy-completion_progress response)
