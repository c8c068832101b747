-- ===== src/ExchangeState/Holds.antt =====
-- src/patchharbor/exchange_state.py: what the ledger's file holds, and rules for the actions on it. Each
-- rule speaks of a run that either succeeds with a relation to the records before it, or raises and
-- leaves the records as they were.
use mathlib.Core.Path.{subst}
use patch_harbor.Base.{
  ◌≡◌, refl, sym, ◌⊎◌, inl, inr, Bool, true, false, List, [], if◌then◌else◌, All, Result, ok, err,
}
use patch_harbor.Models.{ValueError}
use patch_harbor.Json.{Json}
use patch_harbor.ExchangeState.Record.{ExchangeStateRecord}
use patch_harbor.ExchangeState.Snapshot.{has_distinct_identities}
use patch_harbor.ExchangeState.Parse.{parse_state}
use patch_harbor.ExchangeState.Print.{encoded_state, sort_records}
use patch_harbor.ExchangeState.Sorted.{All-sort_records, has_distinct_identities-sort_records}
use patch_harbor.ExchangeState.RoundTrip.{IsStorable, parse_state-encoded_state}
use patch_harbor.ExchangeState.File.{
  PathKind, missing, regular_file, Content, document, Lock, free, held, broken, Disk, StateError,
  state_busy, lock_failed, continue, Action, ◌>>=◌, ◌>>◌, pure, demand, valued, with_state_lock,
  load_unlocked, write_unlocked, prepare_state_directory, prepare, state_file_is_missing,
  is_missing, read_as, enter, load_if, directory, other, uninspectable, directory_unusable,
  not_regular, unreadable, unwritable, changed_while_read, file_uninspectable, stable,
  changed_during_read, unsupported, failed_read, replace_file, read_file, parse_content, Reading,
}

abbrev Stored : PathKind → Content → List ExchangeStateRecord → Type 0
Stored kind content s =
    ((kind ≡ missing) × (s ≡ []))
    ⊎ ((kind ≡ regular_file) × ((j : Json) × (content ≡ document j) × (parse_state j ≡ ok s)))

-- The file holds the records `s`, each of them storable, no two of one identity.
pub record Holds (d : Disk) (s : List ExchangeStateRecord) : Type 0 where
  pub storable : All IsStorable s
  pub distinct : has_distinct_identities s ≡ true
  pub stored : Stored d.file_kind d.content s

-- After a run: a success has brought records of which `R` holds, a raise has kept the old ones.
abbrev pub Settles :
    {A : Type 0}
    → (A → List ExchangeStateRecord → Type 0)
    → List ExchangeStateRecord
    → Result StateError A
    → List ExchangeStateRecord
    → Type 0
Settles R s (ok a) t = R a t
Settles R s (err e) t = t ≡ s

pub record Runs {A : Type 0} (R : A → List ExchangeStateRecord → Type 0)
    (s : List ExchangeStateRecord) (o : Result StateError A × Disk) : Type 0 where
  pub after : List ExchangeStateRecord
  pub holds : Holds o.1 after
  pub settles : Settles R s o.0 after

-- A disk that differs only in the directory and the lock holds the same.
pub Runs-raise :
    {A : Type 0} {R : A → List ExchangeStateRecord → Type 0} {s : List ExchangeStateRecord}
    (e : StateError) (d : Disk)
    → Holds d s
    → Runs R s (err e, d)
Runs-raise {s} e d h = record { after = s; holds = h; settles = refl }

module _ {A B : Type 0} (R : B → List ExchangeStateRecord → Type 0)
    (s : List ExchangeStateRecord) where
  Runs-continue :
      (P : A → Type 0) (r : Result StateError A) (f : A → Action B) (d : Disk)
      → Runs (λ a t. (t ≡ s) × P a) s (r, d)
      → ((a : A) (d' : Disk) → P a → Holds d' s → Runs R s (f a d'))
      → Runs R s (continue r f d)
  Runs-continue P (ok a) f d first next =
      next a d first.settles.1 (subst (Holds d) first.settles.0 first.holds)
  Runs-continue P (err e) f d first next = record {
    after = first.after;
    holds = first.holds;
    settles = first.settles;
  }

  -- A first action that keeps the records, and gives an answer of which `P` holds.
  pub Runs-bind :
      (P : A → Type 0) (m : Action A) (f : A → Action B) (d : Disk)
      → Runs (λ a t. (t ≡ s) × P a) s (m d)
      → ((a : A) (d' : Disk) → P a → Holds d' s → Runs R s (f a d'))
      → Runs R s ((m >>= f) d)
  unfolding ◌>>=◌
  Runs-bind P m f d first next = Runs-continue P (m d).0 f (m d).1 first next

pub Runs-valued :
    {A : Type 0} (s : List ExchangeStateRecord) (e : StateError) (r : Result ValueError A)
    (d : Disk)
    → Holds d s
    → Runs (λ a t. (t ≡ s) × Unit {0}) s (valued e r d)
Runs-valued s e (ok a) d h = record { after = s; holds = h; settles = (refl, tt) }
Runs-valued s e (err _) d h = Runs-raise e d h

module _ {A : Type 0} (Q R : A → List ExchangeStateRecord → Type 0)
    (s : List ExchangeStateRecord) where
  weaken_settled :
      (r : Result StateError A) (t : List ExchangeStateRecord)
      → ((a : A) (t : List ExchangeStateRecord) → Q a t → R a t)
      → Settles Q s r t
      → Settles R s r t
  weaken_settled (ok a) t weaken q = weaken a t q
  weaken_settled (err e) t weaken q = q

  pub Runs-weaken :
      (o : Result StateError A × Disk)
      → Runs Q s o
      → ((a : A) (t : List ExchangeStateRecord) → Q a t → R a t)
      → Runs R s o
  Runs-weaken o run weaken = record {
    after = run.after;
    holds = run.holds;
    settles = weaken_settled o.0 run.after weaken run.settles;
  }

module _ {A B : Type 0} (Q : A → List ExchangeStateRecord → Type 0)
    (R : B → List ExchangeStateRecord → Type 0) (s : List ExchangeStateRecord) where
  -- A last answer that is computed from what the action returns.
  Runs-continue-pure :
      (r : Result StateError A) (g : A → B) (d : Disk)
      → Runs Q s (r, d)
      → ((a : A) (t : List ExchangeStateRecord) → Q a t → R (g a) t)
      → Runs R s (continue r (λ a. pure (g a)) d)
  Runs-continue-pure (ok a) g d run weaken = record {
    after = run.after;
    holds = run.holds;
    settles = weaken a run.after run.settles;
  }
  Runs-continue-pure (err e) g d run weaken = record {
    after = run.after;
    holds = run.holds;
    settles = run.settles;
  }

  pub Runs-pure :
      (m : Action A) (g : A → B) (d : Disk)
      → Runs Q s (m d)
      → ((a : A) (t : List ExchangeStateRecord) → Q a t → R (g a) t)
      → Runs R s ((m >>= λ a. pure (g a)) d)
  unfolding ◌>>=◌
  Runs-pure m g d run weaken = Runs-continue-pure (m d).0 g (m d).1 run weaken

module _ {B : Type 0} (R : B → List ExchangeStateRecord → Type 0)
    (s : List ExchangeStateRecord) where
  pub Runs-demand :
      (b : Bool) (e : StateError) (k : Action B) (d : Disk)
      → Holds d s
      → (b ≡ true → Runs R s (k d))
      → Runs R s ((demand b e >> k) d)
  unfolding ◌>>=◌
  Runs-demand true e k d h next = next refl
  Runs-demand false e k d h next = Runs-raise e d h

  Runs-enter :
      (l : Lock) (m : Action B) (d : Disk) → Holds d s → Runs R s (m d) → Runs R s (enter l m d)
  unfolding enter
  Runs-enter free m d h run = run
  Runs-enter held m d h run = Runs-raise state_busy d h
  Runs-enter broken m d h run = Runs-raise lock_failed d h

  pub Runs-with_state_lock :
      (m : Action B) (d : Disk) → Holds d s → Runs R s (m d) → Runs R s (with_state_lock m d)
  unfolding with_state_lock
  Runs-with_state_lock m d h run = Runs-enter d.lock m d h run

abbrev pub Kept : List ExchangeStateRecord → Unit {0} → List ExchangeStateRecord → Type 0
Kept s a t = (t ≡ s) × Unit {0}

abbrev pub LoadedAs :
    List ExchangeStateRecord → List ExchangeStateRecord → List ExchangeStateRecord → Type 0
LoadedAs s a t = (t ≡ s) × (a ≡ s)

abbrev Answered : List ExchangeStateRecord → Bool → List ExchangeStateRecord → Type 0
Answered s a t = (t ≡ s) × Unit {0}

module _ (s : List ExchangeStateRecord) where
  prepare-Runs : (k : PathKind) (d : Disk) → Holds d s → Runs (Kept s) s (prepare k d)
  unfolding prepare
  prepare-Runs missing d h =
      elim d.mkdir_works
        as (λ b. Runs (Kept s) s (
          if b
          then (ok tt, record d { directory_kind = directory })
          else (err directory_unusable, d))) [
            | true ↦ record {
              after = s;
              holds = record { storable = h.storable; distinct = h.distinct; stored = h.stored };
              settles = (refl, tt);
            }
            | false ↦ Runs-raise directory_unusable d h
          ]
  prepare-Runs directory d h = record { after = s; holds = h; settles = (refl, tt) }
  prepare-Runs _ d h = Runs-raise directory_unusable d h

  read-Runs :
      (k : Reading) (j : Json) (d : Disk)
      → d.content ≡ document j
      → parse_state j ≡ ok s
      → Holds d s
      → Runs (LoadedAs s) s ((read_as k >>= parse_content) d)
  unfolding read_as parse_content ◌>>=◌
  read-Runs stable j d is_j parsed h =
      subst (λ c. Runs (LoadedAs s) s (parse_content c d)) (sym is_j)
        (rw parsed (record { after = s; holds = h; settles = (refl, refl) }))
  read-Runs changed_during_read j d is_j parsed h = Runs-raise changed_while_read d h
  read-Runs unsupported j d is_j parsed h = Runs-raise not_regular d h
  read-Runs failed_read j d is_j parsed h = Runs-raise unreadable d h

  load-Runs_kind :
      (k : PathKind) (d : Disk)
      → Stored k d.content s
      → Holds d s
      → Runs (LoadedAs s) s ((is_missing k >>= load_if) d)
  unfolding is_missing load_if read_file ◌>>=◌
  load-Runs_kind missing d (inl none_there) h = record {
    after = s;
    holds = h;
    settles = (refl, sym none_there.1);
  }
  load-Runs_kind missing d (inr there) h = cc (there.0)
  load-Runs_kind regular_file d (inl none_there) h = cc (none_there.0)
  load-Runs_kind regular_file d (inr there) h =
      read-Runs d.reading there.1.0 d there.1.1 there.1.2 h
  load-Runs_kind directory d at h = Runs-raise not_regular d h
  load-Runs_kind other d at h = Runs-raise not_regular d h
  load-Runs_kind uninspectable d at h = Runs-raise file_uninspectable d h

  -- A load returns what the file holds, or raises; it changes no record.
  pub load_unlocked-Runs : (d : Disk) → Holds d s → Runs (LoadedAs s) s (load_unlocked d)
  unfolding load_unlocked prepare_state_directory state_file_is_missing ◌>>=◌
  load_unlocked-Runs d h =
      Runs-bind (LoadedAs s) s (λ _. Unit {0}) prepare_state_directory _ d
        (prepare-Runs d.directory_kind d h)
        (λ _ d' _ h'. load-Runs_kind d'.file_kind d' h'.stored h')

  -- A write leaves the given records in the order of their keys, or raises and leaves the old ones.
  replace-Runs :
      (rs : List ExchangeStateRecord) (d : Disk)
      → All IsStorable rs
      → has_distinct_identities rs ≡ true
      → Holds d s
      → Runs (λ a t. t ≡ sort_records rs) s (replace_file (encoded_state rs) d)
  unfolding replace_file
  replace-Runs rs d storable distinct h =
      elim d.writing_works
        as (λ b.
          Runs (λ a t. t ≡ sort_records rs) s
            (if b
              then (
                ok tt,
                record d { file_kind = regular_file; content = document (encoded_state rs) },
              )
              else (err unwritable, d))) [
                | true ↦ record {
                  after = sort_records rs;
                  holds = record {
                    storable = All-sort_records IsStorable rs storable;
                    distinct = has_distinct_identities-sort_records rs distinct;
                    stored = inr (
                      refl,
                      (encoded_state rs, refl, parse_state-encoded_state rs storable distinct),
                    );
                  };
                  settles = refl;
                }
                | false ↦ Runs-raise unwritable d h
              ]

  missing-Runs : (k : PathKind) (d : Disk) → Holds d s → Runs (Answered s) s (is_missing k d)
  unfolding is_missing
  missing-Runs missing d h = record { after = s; holds = h; settles = (refl, tt) }
  missing-Runs regular_file d h = record { after = s; holds = h; settles = (refl, tt) }
  missing-Runs directory d h = Runs-raise not_regular d h
  missing-Runs other d h = Runs-raise not_regular d h
  missing-Runs uninspectable d h = Runs-raise file_uninspectable d h

  pub write_unlocked-Runs :
      (rs : List ExchangeStateRecord) (d : Disk)
      → All IsStorable rs
      → has_distinct_identities rs ≡ true
      → Holds d s
      → Runs (λ a t. t ≡ sort_records rs) s (write_unlocked rs d)
  unfolding write_unlocked prepare_state_directory state_file_is_missing ◌>>=◌
  write_unlocked-Runs rs d storable distinct h =
      Runs-bind (λ a t. t ≡ sort_records rs) s (λ _. Unit {0}) prepare_state_directory _ d
        (prepare-Runs d.directory_kind d h)
        (λ _ d' _ h'.
          Runs-bind (λ a t. t ≡ sort_records rs) s (λ _. Unit {0}) state_file_is_missing _ d'
            (missing-Runs d'.file_kind d' h')
            (λ _ d'' _ h''. replace-Runs rs d'' storable distinct h''))
