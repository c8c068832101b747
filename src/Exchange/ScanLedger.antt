-- ===== src/Exchange/ScanLedger.antt =====
-- src/patchharbor/exchange.py: a whole scan over the ledger.
use mathlib.Core.Path.{subst, subst⁻¹}
use mathlib.Core.Option.{or_else}
use patch_harbor.Base.{
  String, ◌≡◌, refl, sym, ap, ◌∙◌, true, Option, none, some, List, [], ◌∷◌, is_some, All, Result,
  ok, err, Answers, Answers-bind, Answers-implies,
}
use patch_harbor.ExchangeState.Record.{ExchangeFileIdentity, ExchangeStateRecord}
use patch_harbor.ExchangeState.Snapshot.{record_for}
use patch_harbor.ExchangeState.File.{Disk, StateError, load_unlocked}
use patch_harbor.ExchangeState.Holds.{
  Holds, Runs, LoadedAs, Runs-with_state_lock, load_unlocked-Runs,
}
use patch_harbor.ExchangeState.Merge.{load_exchange_state, merge_exchange_classifications}
use patch_harbor.ExchangeState.MergeLaws.{Merges, merge_exchange_classifications-Runs}
use patch_harbor.Zip.Policy.{ResourcePolicy}
use patch_harbor.Exchange.Artifact.{ExchangeArtifact}
use patch_harbor.Exchange.Files.{ExchangeError, ledger, top_level_regular_paths}
use patch_harbor.Exchange.Scan.{
  Found, Surroundings, current_artifacts, collect, with_current, merge_found, scan_loaded,
  scan_exchange_directory,
}
use patch_harbor.Exchange.ScanLaws.{
  AreFound, IsKnown, IsNormal, IsShown, scan_paths-AreFound, current_artifacts-IsShown,
}

-- After a scan: the ledger can be read, every record that it had is there unchanged, and each artifact
-- that is returned shows the record of its identity.
pub record Scanned (s : List ExchangeStateRecord)
    (o : Result ExchangeError (List ExchangeArtifact) × Disk) : Type 0 where
  pub after : List ExchangeStateRecord
  pub holds : Holds o.1 after
  pub kept :
      (i : ExchangeFileIdentity)
      → or_else (record_for i s) (record_for i after) ≡ record_for i after
  pub shown : Answers (All (IsShown after)) o.0

or_else-same {ℓ} : {A : Type ℓ} (o : Option A) → or_else o o ≡ o
unfolding or_else
or_else-same none = refl
or_else-same (some a) = refl

or_else-twice {ℓ} : {A : Type ℓ} (o p : Option A) → or_else o (or_else o p) ≡ or_else o p
unfolding or_else
or_else-twice none p = refl
or_else-twice (some a) p = refl

Scanned-raise :
    (s : List ExchangeStateRecord) (e : ExchangeError) (d : Disk) → Holds d s → Scanned s (err e, d)
Scanned-raise s e d h = record {
  after = s;
  holds = h;
  kept = λ i. or_else-same (record_for i s);
  shown = tt;
}

IsShown-answered :
    (t u : List ExchangeStateRecord) (a : ExchangeArtifact)
    → ((i : ExchangeFileIdentity) → record_for i t ≡ record_for i u)
    → IsShown t a
    → IsShown u a
IsShown-answered t u a same (e, found, shows) = (e, sym (same a.identity) ∙ found, shows)

All-IsShown :
    (t u : List ExchangeStateRecord) (artifacts : List ExchangeArtifact)
    → ((i : ExchangeFileIdentity) → record_for i t ≡ record_for i u)
    → All (IsShown t) artifacts
    → All (IsShown u) artifacts
All-IsShown t u [] same h = tt
All-IsShown t u (a ∷ artifacts) same h =
    (IsShown-answered t u a same h.0, All-IsShown t u artifacts same h.1)

known_in :
    (s uncached t : List ExchangeStateRecord) (artifacts : List ExchangeArtifact)
    → ((i : ExchangeFileIdentity)
        → record_for i t ≡ or_else (record_for i s) (record_for i uncached))
    → All (IsKnown s uncached) artifacts
    → All (λ a. is_some (record_for a.identity t) ≡ true) artifacts
known_in s uncached t [] same h = tt
known_in s uncached t (a ∷ artifacts) same h =
    (ap is_some (same a.identity) ∙ h.0, known_in s uncached t artifacts same h.1)

module _ (s : List ExchangeStateRecord) where
  with_current-Scanned :
      (f : Found) (o : Result StateError (List ExchangeStateRecord) × Disk)
      → AreFound s f
      → Runs (Merges f.1 s) s o
      → Scanned s (with_current f.0 o)
  unfolding with_current
  with_current-Scanned f (err e, d) found run =
      Scanned-raise s (ledger e) d (subst (Holds d) run.settles run.holds)
  with_current-Scanned f (ok t, d) found run =
      let m = run.settles in
      record {
        after = run.after;
        holds = run.holds;
        kept = λ i. rw (m.stored i) (or_else-twice (record_for i s) (record_for i f.1));
        shown =
            Answers-implies (All (IsShown t)) (All (IsShown run.after)) (current_artifacts t f.0)
              (current_artifacts-IsShown t f.0
                (known_in s f.1 t f.0 (λ i. m.answered i ∙ m.stored i) found.0))
              (λ artifacts. All-IsShown t run.after artifacts m.answered);
      }

  merge_found-Scanned :
      (m : Result ExchangeError Found) (d : Disk)
      → Holds d s
      → Answers (AreFound s) m
      → Scanned s (merge_found m d)
  unfolding merge_found
  merge_found-Scanned (err e) d h found = Scanned-raise s e d h
  merge_found-Scanned (ok (artifacts, uncached)) d h found =
      with_current-Scanned (artifacts, uncached) (merge_exchange_classifications uncached d) found
        (merge_exchange_classifications-Runs uncached s d h found.1)

module _ (w : Surroundings) (policy : ResourcePolicy) (directory : String)
    (normal : IsNormal w.files) (s : List ExchangeStateRecord) where
  scan_loaded-Scanned :
      (o : Result StateError (List ExchangeStateRecord) × Disk)
      → Runs (LoadedAs s) s o
      → Scanned s (scan_loaded w policy directory o)
  unfolding scan_loaded collect
  scan_loaded-Scanned (err e, d) run =
      Scanned-raise s (ledger e) d (subst (Holds d) run.settles run.holds)
  scan_loaded-Scanned (ok records, d) run =
      subst⁻¹ (λ x. Scanned s (merge_found (collect w policy directory x) d)) run.settles.1
        (merge_found-Scanned s (collect w policy directory s) d
          (subst (Holds d) run.settles.0 run.holds)
          (Answers-bind (AreFound s) (top_level_regular_paths w.is_temporary directory w.entries) _
            (scan_paths-AreFound w.readers policy w.files directory s normal)))

  -- A scan of any directory, over a ledger that can be read and holds storable records of distinct
  -- identities, leaves such a ledger, also if it raises; every record that the ledger had, its apply
  -- status included, is there unchanged; and each artifact that is returned has the kind, the selection
  -- and the apply status of the ledger's record of its identity, and the path of that identity. The
  -- canonical paths of the file system are in the normal form.
  pub scan_exchange_directory-Scanned :
      (d : Disk) → Holds d s → Scanned s (scan_exchange_directory w policy directory d)
  unfolding scan_exchange_directory load_exchange_state
  scan_exchange_directory-Scanned d h =
      scan_loaded-Scanned (load_exchange_state d)
        (Runs-with_state_lock (LoadedAs s) s load_unlocked d h (load_unlocked-Runs s d h))
