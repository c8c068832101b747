-- ===== src/Exchange/Scan.antt =====
-- src/patchharbor/exchange.py: `scan_exchange_directory`, and the reopening of what it found.
use patch_harbor.Base.{
  String, Bool, Option, none, some, List, [], ◌∷◌, ◌++◌, Result, ok, err, ◌>>=◌, reraise, string_eq,
  option_eq,
}
use patch_harbor.ExchangeState.Record.{ExchangeStateRecord, identity_eq, selection_eq}
use patch_harbor.ExchangeState.Snapshot.{record_for}
use patch_harbor.ExchangeState.File.{Disk, StateError}
use patch_harbor.ExchangeState.Merge.{load_exchange_state, merge_exchange_classifications}
use patch_harbor.Zip.Policy.{ResourcePolicy}
use patch_harbor.Exchange.Artifact.{
  ExchangeArtifact, artifact_from_record, record_from_artifact, record_from_classification,
}
use patch_harbor.Exchange.Classify.{Readers, classify_content}
use patch_harbor.Exchange.Files.{
  ExchangeError, scan_error, value_raised, ledger, FileView, ExchangeFileSnapshot,
  read_exchange_file, DirectoryEntry, top_level_regular_paths,
}

-- The two lists of a scan: `artifacts` and `uncached_records`.
abbrev pub Found : Type 0
Found = List ExchangeArtifact × List ExchangeStateRecord

-- The parts that a scan reads through.
pub record Surroundings : Type 0 where
  pub readers : Readers
  pub files : String → FileView
  pub is_temporary : String → Bool
  pub entries : Option (List DirectoryEntry)

module _ (r : Readers) (policy : ResourcePolicy) where
  -- A file that is in the records keeps what they say; another is classified.
  unfoldable pub found_file :
      String
      → ExchangeFileSnapshot
      → Option ExchangeStateRecord
      → Result ExchangeError (ExchangeArtifact × List ExchangeStateRecord)
  unfolding classify_content record_from_classification artifact_from_record
  found_file path s (some cached) = do
    a ← reraise value_raised (artifact_from_record path cached s.mtime_ns none)
    ok (a, [])
  found_file path s none = do
    c ← reraise value_raised (classify_content r policy s.content)
    entry ← reraise value_raised (record_from_classification s.identity c)
    a ← reraise value_raised (artifact_from_record path entry s.mtime_ns c.validated_package)
    ok (a, entry ∷ [])

  module _ (files : String → FileView) (directory : String)
      (records : List ExchangeStateRecord) where
    -- A file that cannot be read is skipped.
    unfoldable pub scan_path :
        String
        → Result ExchangeError ExchangeFileSnapshot
        → Result ExchangeError Found
        → Result ExchangeError Found
    unfolding found_file record_for
    scan_path path (err scan_error) rest = rest
    scan_path path (err e) rest = err e
    scan_path path (ok s) rest = do
      (a, new) ← found_file path s (record_for s.identity records)
      (artifacts, uncached) ← rest
      ok (a ∷ artifacts, new ++ uncached)

    -- The loop of `scan_exchange_directory`. No two records have one identity.
    unfoldable pub scan_paths : List String → Result ExchangeError Found
    unfolding scan_path read_exchange_file
    scan_paths [] = ok ([], [])
    scan_paths (p ∷ ps) =
        scan_path p (read_exchange_file files p directory policy.max_input_artifact_bytes)
          (scan_paths ps)

-- `current_records.get(artifact.identity) or _record_from_artifact(artifact)`
unfoldable pub current_record :
    ExchangeArtifact → Option ExchangeStateRecord → Result ExchangeError ExchangeStateRecord
unfolding record_from_artifact
current_record a none = reraise value_raised (record_from_artifact a)
current_record a (some entry) = ok entry

unfoldable pub current_artifact :
    List ExchangeStateRecord → ExchangeArtifact → Result ExchangeError ExchangeArtifact
unfolding record_for current_record artifact_from_record
current_artifact records a = do
  entry ← current_record a (record_for a.identity records)
  reraise value_raised (artifact_from_record a.path entry a.mtime_ns a.validated_package)

unfoldable pub current_artifacts :
    List ExchangeStateRecord → List ExchangeArtifact → Result ExchangeError (List ExchangeArtifact)
unfolding current_artifact
current_artifacts records [] = ok []
current_artifacts records (a ∷ artifacts) = do
  b ← current_artifact records a
  rest ← current_artifacts records artifacts
  ok (b ∷ rest)

unfoldable pub collect :
    Surroundings → ResourcePolicy → String → List ExchangeStateRecord → Result ExchangeError Found
unfolding top_level_regular_paths scan_paths
collect w policy directory records = do
  paths ← top_level_regular_paths w.is_temporary directory w.entries
  scan_paths w.readers policy w.files directory records paths

-- `scan_exchange_directory` with no ledger
unfoldable pub scan_without_ledger :
    Surroundings → ResourcePolicy → String → Result ExchangeError (List ExchangeArtifact)
unfolding collect
scan_without_ledger w policy directory = do
  (artifacts, _) ← collect w policy directory []
  ok artifacts

-- What the merged ledger says of the artifacts.
unfoldable pub with_current :
    List ExchangeArtifact
    → Result StateError (List ExchangeStateRecord) × Disk
    → Result ExchangeError (List ExchangeArtifact) × Disk
unfolding current_artifacts
with_current artifacts (err e, d) = (err (ledger e), d)
with_current artifacts (ok records, d) = (current_artifacts records artifacts, d)

unfoldable pub merge_found :
    Result ExchangeError Found → Disk → Result ExchangeError (List ExchangeArtifact) × Disk
unfolding with_current merge_exchange_classifications
merge_found (err e) d = (err e, d)
merge_found (ok (artifacts, uncached)) d =
    with_current artifacts (merge_exchange_classifications uncached d)

unfoldable pub scan_loaded :
    Surroundings
    → ResourcePolicy
    → String
    → Result StateError (List ExchangeStateRecord) × Disk
    → Result ExchangeError (List ExchangeArtifact) × Disk
unfolding collect merge_found
scan_loaded w policy directory (err e, d) = (err (ledger e), d)
scan_loaded w policy directory (ok records, d) = merge_found (collect w policy directory records) d

-- `scan_exchange_directory`, with the ledger
unfoldable pub scan_exchange_directory :
    Surroundings
    → ResourcePolicy
    → String
    → Disk
    → Result ExchangeError (List ExchangeArtifact) × Disk
unfolding scan_loaded load_exchange_state
scan_exchange_directory w policy directory d =
    scan_loaded w policy directory (load_exchange_state d)
