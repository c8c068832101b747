-- ===== src/Exchange/Once.antt =====
-- src/patchharbor/application_exchange.py: a patch whose attempt was published is not discovered again.
use mathlib.Core.Option.{or_else}
use patch_harbor.Base.{
  String, ◌≡◌, ◌≢◌, refl, ap, Bool, true, is_some, Option, none, some, List, [], ◌∷◌, arith, All,
  All-at, All-append, Result, ok, err, Answers, Answers-bind, Answers-implies, Answers-then,
  same-key_refl, Result-cases, inl, inr,
}
use patch_harbor.Models.{RepositoryId}
use patch_harbor.ExchangeState.Record.{
  ExchangeFileIdentity, ExchangeStateRecord, ExchangePatchSelection, identity_eq,
}
use patch_harbor.ExchangeState.Snapshot.{record_for}
use patch_harbor.ExchangeState.File.{Disk, Action, StateError}
use patch_harbor.ExchangeState.Holds.{Holds, Runs}
use patch_harbor.ExchangeState.Attempt.{started}
use patch_harbor.ExchangeState.AttemptLaws.{IsReadOnly, Starts, mark_exchange_apply_started-Runs}
use patch_harbor.ExchangeState.Replay.{Attempted, Leaves, Reach, Reach-Attempted}
use patch_harbor.Watcher.Protocol.{ExchangeWatchTarget}
use patch_harbor.Zip.Policy.{default_resource_policy}
use patch_harbor.Exchange.Artifact.{ExchangeArtifact}
use patch_harbor.Exchange.Classify.{Readers}
use patch_harbor.Exchange.Files.{ExchangeError, scan_error, FileView}
use patch_harbor.Exchange.Scan.{scan_exchange_directory}
use patch_harbor.Exchange.ScanLaws.{IsNormal, IsShown}
use patch_harbor.Exchange.ScanLedger.{Scanned, scan_exchange_directory-Scanned}
use patch_harbor.Exchange.Select.{RepositoryContext, DiscoverError, Settings, may_start}
use patch_harbor.Exchange.Discover.{DiscoveredExchangePatch}
use patch_harbor.Exchange.Discovered.{IsDiscovered, discover_exchange_patch-IsDiscovered}
use patch_harbor.Exchange.Targets.{
  TargetView, require_watch_target_unchanged, scanned, checked_scan, scan_target, joined_scans,
  scan_then, scan_targets, automatic_exchange_discovery_scope, discover_in_targets,
}
use patch_harbor.Exchange.Publish.{
  StartView, verify_identity, callback, with_selection, publish_attempt,
}

callback-IsReadOnly : (m : Result DiscoverError (Unit {0})) → IsReadOnly (callback m)
callback-IsReadOnly (ok u) d = refl
callback-IsReadOnly (err e) d = refl

started-Attempted :
    (i : ExchangeFileIdentity) (selection : ExchangePatchSelection) (retry explicit : Bool)
    (run_id : Option String) (s : List ExchangeStateRecord)
    (o : Result StateError (Unit {0}) × Disk)
    → Runs (λ _ t. Starts i selection retry explicit run_id s t) s o
    → o.0 ≡ ok tt
    → Leaves (Attempted i) o.1
started-Attempted i selection retry explicit run_id s (ok u, d) run is = record {
  after = run.after;
  holds = run.holds;
  property = record {
    entry = started run_id run.settles.before;
    found = ground (arith, run.settles.changed i, same-key_refl i);
    crossed = refl;
  };
}
started-Attempted i selection retry explicit run_id s (err e, d) run is = cc

with_selection-Leaves :
    (P : List ExchangeStateRecord → Type 0) (o : Option ExchangePatchSelection)
    (write : ExchangePatchSelection → Action (Unit {0})) (d : Disk)
    → ((s : ExchangePatchSelection) → (write s d).0 ≡ ok tt → Leaves P (write s d).1)
    → (with_selection o write d).0 ≡ ok tt
    → Leaves P (with_selection o write d).1
unfolding with_selection
with_selection-Leaves P none write d h is = cc
with_selection-Leaves P (some s) write d h is = h s is

-- A start that is published has made its identity attempted.
publish_attempt-Attempted :
    (v : StartView) (p : DiscoveredExchangePatch) (run_id : Option String)
    (s : List ExchangeStateRecord) (d : Disk)
    → Holds d s
    → (publish_attempt v p run_id d).0 ≡ ok tt
    → Leaves (Attempted p.artifact.identity) (publish_attempt v p run_id d).1
unfolding publish_attempt
publish_attempt-Attempted v p run_id s d h =
    with_selection-Leaves (Attempted p.artifact.identity) p.artifact.selection _ d λ selection.
      started-Attempted p.artifact.identity selection p.retry_failed p.explicitly_selected run_id s
        _
        (mark_exchange_apply_started-Runs p.artifact.identity selection p.retry_failed
          p.explicitly_selected run_id s (callback (verify_identity v p.artifact.identity)) d
          (callback-IsReadOnly (verify_identity v p.artifact.identity)) h)

module _ (i : ExchangeFileIdentity) where
  -- An artifact of the identity shows that it has crossed the apply-start boundary.
  abbrev IsCrossed : ExchangeArtifact → Type 0
  IsCrossed a = a.identity ≡ i → is_some a.apply_status ≡ true

  IsShown-IsCrossed :
      (t : List ExchangeStateRecord) (a : ExchangeArtifact)
      → Attempted i t
      → IsShown t a
      → IsCrossed a
  IsShown-IsCrossed t a attempted (e, found, shows) same = ground (
    arith,
    attempted.found,
    attempted.crossed,
    found,
    shows.apply_status,
    ap (λ j. record_for j t) same,
  )

  All-IsCrossed :
      (t : List ExchangeStateRecord) (artifacts : List ExchangeArtifact)
      → Attempted i t
      → All (IsShown t) artifacts
      → All IsCrossed artifacts
  All-IsCrossed t [] attempted h = tt
  All-IsCrossed t (a ∷ artifacts) attempted h =
      (IsShown-IsCrossed t a attempted h.0, All-IsCrossed t artifacts attempted h.1)

  -- A part of the loop: the identity stays attempted, and what is found shows it.
  record Scans (o : Result DiscoverError (List ExchangeArtifact) × Disk) : Type 0 where
    left : Leaves (Attempted i) o.1
    crossed : Answers (All IsCrossed) o.0

  kept-Attempted :
      (s t : List ExchangeStateRecord)
      → ((j : ExchangeFileIdentity) → or_else (record_for j s) (record_for j t) ≡ record_for j t)
      → Attempted i s
      → Attempted i t
  unfolding or_else
  kept-Attempted s t kept a = record {
    entry = a.entry;
    found = ground (arith, kept i, a.found);
    crossed = a.crossed;
  }

  Answers-scanned :
      (P : List ExchangeArtifact → Type 0) (m : Result ExchangeError (List ExchangeArtifact))
      → Answers P m
      → Answers P (scanned m)
  unfolding scanned
  Answers-scanned P (ok a) h = h
  Answers-scanned P (err scan_error) h = tt
  Answers-scanned P (err ExchangeError.value_raised) h = tt
  Answers-scanned P (err ExchangeError.package_changed) h = tt
  Answers-scanned P (err (ExchangeError.ledger e)) h = tt

  module _ (v : TargetView) (normal : IsNormal v.surroundings.files)
      (target : ExchangeWatchTarget) where
    checked_scan-Scans :
        (s : List ExchangeStateRecord) (o : Result ExchangeError (List ExchangeArtifact) × Disk)
        → Attempted i s
        → Scanned s o
        → Scans (checked_scan v.after target o)
    unfolding checked_scan
    checked_scan-Scans s o a h =
        let attempted = kept-Attempted s h.after h.kept a in
        record {
          left = record { after = h.after; holds = h.holds; property = attempted };
          crossed =
              Answers-then (All IsCrossed) (All IsCrossed) (scanned o.0) _
                (Answers-scanned (All IsCrossed) o.0 (
                  Answers-implies (All (IsShown h.after)) (All IsCrossed) o.0 h.shown
                    λ artifacts. All-IsCrossed h.after artifacts attempted))
                λ artifacts crossed.
                  Answers-bind (All IsCrossed) (require_watch_target_unchanged v.after target) _
                    λ _. crossed;
        }

    scan_target-Scans :
        (s : List ExchangeStateRecord) (d : Disk)
        → Holds d s
        → Attempted i s
        → Scans (scan_target v target d)
    unfolding scan_target
    scan_target-Scans s d h a =
        elim (Result-cases (require_watch_target_unchanged v.before target)) [
          | inl (u, is) ↦
              rw (is, scan_target)
                (checked_scan-Scans s
                  (scan_exchange_directory v.surroundings default_resource_policy target.directory
                    d)
                  a
                  (scan_exchange_directory-Scanned v.surroundings default_resource_policy
                    target.directory normal s d h))
          | inr (e, is) ↦
              rw (is, scan_target)
                (record { left = record { after = s; holds = h; property = a }; crossed = tt })
        ]

  joined_scans-Scans :
      (artifacts : List ExchangeArtifact) (o : Result DiscoverError (List ExchangeArtifact) × Disk)
      → All IsCrossed artifacts
      → Scans o
      → Scans (joined_scans artifacts o)
  unfolding joined_scans
  joined_scans-Scans artifacts (found, d) crossed h = record {
    left = h.left;
    crossed =
        Answers-then (All IsCrossed) (All IsCrossed) found _ h.crossed
          λ rest k. All-append IsCrossed artifacts rest crossed k;
  }

  scan_then-Scans :
      (o : Result DiscoverError (List ExchangeArtifact) × Disk)
      (rest : Disk → Result DiscoverError (List ExchangeArtifact) × Disk)
      → Scans o
      → ((s : List ExchangeStateRecord) (d : Disk) → Holds d s → Attempted i s → Scans (rest d))
      → Scans (scan_then o rest)
  unfolding scan_then
  scan_then-Scans (err e, d) rest first next = first
  scan_then-Scans (ok artifacts, d) rest first next =
      joined_scans-Scans artifacts (rest d) first.crossed
        (next first.left.after d first.left.holds first.left.property)

  scan_targets-Scans :
      (views : ExchangeWatchTarget → TargetView)
      → ((t : ExchangeWatchTarget) → IsNormal (views t).surroundings.files)
      → (targets : List ExchangeWatchTarget) (s : List ExchangeStateRecord) (d : Disk) → Holds d s
      → Attempted i s
      → Scans (scan_targets views targets d)
  unfolding scan_targets
  scan_targets-Scans views normal [] s d h a = record {
    left = record { after = s; holds = h; property = a };
    crossed = tt;
  }
  scan_targets-Scans views normal (target ∷ targets) s d h a =
      scan_then-Scans (scan_target (views target) target d) (scan_targets views targets)
        (scan_target-Scans (views target) (normal target) target s d h a)
        (scan_targets-Scans views normal targets)

  -- A discovery by itself passes over every artifact that has a status.
  module _ (normalize : String → String)
      (capture : RepositoryId → Result DiscoverError (Option RepositoryContext)) (r : Readers)
      (files : String → FileView) (settings : Settings)
      (first_check second_check : Result DiscoverError (Unit {0})) where
    abbrev Differs : DiscoveredExchangePatch → Type 0
    Differs q = q.artifact.identity ≢ i

    discovered-Differs :
        (artifacts : List ExchangeArtifact)
        → All IsCrossed artifacts
        → (q : DiscoveredExchangePatch)
        → IsDiscovered normalize capture r files settings automatic_exchange_discovery_scope
            artifacts q
        → Differs q
    unfolding may_start
    discovered-Differs artifacts crossed q h same =
        ground (
          arith,
          All-at IsCrossed artifacts q.artifact crossed h.one_of same,
          h.eligible_one.status,
        )

    discover_in_targets-Differs :
        (views : ExchangeWatchTarget → TargetView)
        → ((t : ExchangeWatchTarget) → IsNormal (views t).surroundings.files)
        → (targets : List ExchangeWatchTarget) (s : List ExchangeStateRecord) (d : Disk) → Holds d s
        → Attempted i s
        → Answers Differs
            (discover_in_targets normalize capture r files settings
              automatic_exchange_discovery_scope first_check second_check views targets d).0
    unfolding discover_in_targets
    discover_in_targets-Differs views normal targets s d h a =
        Answers-then (All IsCrossed) Differs (scan_targets views targets d).0 _
          (scan_targets-Scans views normal targets s d h a).crossed
          λ artifacts crossed.
            Answers-implies _ Differs _
              (discover_exchange_patch-IsDiscovered normalize capture r files settings
                automatic_exchange_discovery_scope first_check second_check artifacts)
              (discovered-Differs artifacts crossed)

-- After the attempt of a discovered patch was published in a ledger that can be read and holds storable
-- records of distinct identities, and whatever operations on the ledger follow, with candidates and
-- commits that have passed their checks and callbacks that change nothing, an automatic discovery, which
-- scans its directories with the archiving off, finds no patch of that identity: a file with the path
-- and the digest is not applied again by itself. The canonical paths of the file system are in the
-- normal form.
pub published_once :
    (v : StartView) (p : DiscoveredExchangePatch) (run_id : Option String)
    (s : List ExchangeStateRecord) (d e : Disk) (normalize : String → String)
    (capture : RepositoryId → Result DiscoverError (Option RepositoryContext)) (r : Readers)
    (files : String → FileView) (settings : Settings)
    (first_check second_check : Result DiscoverError (Unit {0}))
    (views : ExchangeWatchTarget → TargetView) (targets : List ExchangeWatchTarget)
    → Holds d s
    → (publish_attempt v p run_id d).0 ≡ ok tt
    → Reach (publish_attempt v p run_id d).1 e
    → ((t : ExchangeWatchTarget) → IsNormal (views t).surroundings.files)
    → Answers
        (λ q. q.artifact.identity ≢ p.artifact.identity)
        (discover_in_targets normalize capture r files settings automatic_exchange_discovery_scope
          first_check second_check views targets e).0
published_once v p run_id s d e normalize capture r files settings first_check second_check views
      targets h published path normal =
    let start = publish_attempt-Attempted v p run_id s d h published in
    let later =
      Reach-Attempted p.artifact.identity start.after (publish_attempt v p run_id d).1 e path
        start.holds start.property in
    discover_in_targets-Differs p.artifact.identity normalize capture r files settings first_check
      second_check views normal targets later.after e later.holds later.property
