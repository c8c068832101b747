-- ===== src/Exchange/ScanComplete.antt =====
-- src/patchharbor/exchange.py: a scan returns an artifact for each file that can be read.
use mathlib.Core.Path.{subst⁻¹}
use patch_harbor.Base.{
  String, ◌≡◌, refl, sym, ap, ◌∙◌, inl, inr, Option, none, some, List, [], ◌∷◌, map, if◌then◌else◌,
  Result, ok, err, reraise, Answers, Answers-bind, Answers-answer, Answers-then, Answers-implies,
  Answers-reraise, Bool-cases, string_eq,
}
use patch_harbor.Models.{value_error}
use patch_harbor.ExchangeState.Record.{
  ExchangeFileIdentity, ExchangeStateRecord, identity_eq, checked, is_valid,
}
use patch_harbor.ExchangeState.Snapshot.{record_for}
use patch_harbor.ExchangeState.ReviseLaws.{record_for-identity}
use patch_harbor.ExchangeState.File.{Disk, StateError}
use patch_harbor.ExchangeState.Merge.{load_exchange_state, merge_exchange_classifications}
use patch_harbor.Zip.Policy.{ResourcePolicy}
use patch_harbor.Exchange.Artifact.{
  ExchangeArtifact, artifact_from_record, record_from_artifact, record_from_classification,
  new_record,
}
use patch_harbor.Exchange.Classify.{Readers, classify_content}
use patch_harbor.Exchange.Files.{
  ExchangeError, scan_error, value_raised, package_changed, ledger, FileView, ExchangeFileSnapshot,
  read_exchange_file, top_level_regular_paths,
}
use patch_harbor.Exchange.Listing.{
  IsListing, top_level_regular_paths-IsListing, IsRead, read_exchange_file-IsRead,
  IsRead-read_exchange_file, Reads, no_path, readable, unreadable,
}
use patch_harbor.Exchange.Scan.{
  Found, Surroundings, found_file, scan_path, scan_paths, current_record, current_artifact,
  current_artifacts, collect, with_current, merge_found, scan_loaded, scan_exchange_directory,
}
use patch_harbor.Exchange.ScanLaws.{Shows, artifact_from_record-Shows}

abbrev pub identities : List ExchangeArtifact → List ExchangeFileIdentity
identities = map (λ (a : ExchangeArtifact). a.identity)

-- The artifacts have the identities of the files that can be read, each once and in the order of the
-- names.
pub record IsComplete (w : Surroundings) (policy : ResourcePolicy) (directory : String)
    (artifacts : List ExchangeArtifact) : Type 0 where
  pub paths : List String
  pub listed : IsListing w.is_temporary directory w.entries paths
  pub complete :
      Reads w.files directory policy.max_input_artifact_bytes paths (identities artifacts)

checked-same : (r : ExchangeStateRecord) → Answers (λ e. r ≡ e) (checked r)
unfolding checked
checked-same r = elim (Bool-cases (is_valid r)) [
  | inl valid ↦ subst⁻¹ (λ b. Answers (λ e. r ≡ e) (if b then ok r else err value_error)) valid refl
  | inr other ↦ subst⁻¹ (λ b. Answers (λ e. r ≡ e) (if b then ok r else err value_error)) other tt
]

module _ (r : Readers) (policy : ResourcePolicy) (files : String → FileView) (directory : String)
    (records : List ExchangeStateRecord) where
  found_file-identity :
      (path : String) (s : ExchangeFileSnapshot) (o : Option ExchangeStateRecord)
      → record_for s.identity records ≡ o
      → Answers (λ x. x.0.identity ≡ s.identity) (found_file r policy path s o)
  unfolding found_file record_from_classification
  found_file-identity path s (some cached) found =
      Answers-then (Shows cached) (λ x. x.0.identity ≡ s.identity)
        (reraise value_raised (artifact_from_record path cached s.mtime_ns none)) _
        (Answers-reraise (Shows cached) value_raised _
          (artifact_from_record-Shows path cached s.mtime_ns none))
        λ a shows. shows.identity ∙ record_for-identity s.identity records cached found
  found_file-identity path s none found =
      Answers-bind (λ x. x.0.identity ≡ s.identity)
        (reraise value_raised (classify_content r policy s.content)) _
        λ c.
          let entry = new_record s.identity c.kind c.selection none in
          Answers-then (λ e. entry ≡ e) (λ x. x.0.identity ≡ s.identity)
            (reraise value_raised (checked entry)) _
            (Answers-reraise (λ e. entry ≡ e) value_raised (checked entry) (checked-same entry))
            λ e is.
              Answers-then (Shows e) (λ x. x.0.identity ≡ s.identity)
                (reraise value_raised (artifact_from_record path e s.mtime_ns c.validated_package))
                _
                (Answers-reraise (Shows e) value_raised _
                  (artifact_from_record-Shows path e s.mtime_ns c.validated_package))
                λ a shows. shows.identity ∙ ap (λ (x : ExchangeStateRecord). x.identity) (sym is)

  abbrev AreRead : List String → Found → Type 0
  AreRead ps f = Reads files directory policy.max_input_artifact_bytes ps (identities f.0)

  scan_path_complete :
      (p : String) (ps : List String) (m : Result ExchangeError ExchangeFileSnapshot)
      (rest : Result ExchangeError Found)
      → read_exchange_file files p directory policy.max_input_artifact_bytes ≡ m
      → Answers (AreRead ps) rest
      → Answers (AreRead (p ∷ ps)) (scan_path r policy files directory records p m rest)
  unfolding scan_path
  scan_path_complete p ps (err scan_error) rest is h =
      Answers-implies (AreRead ps) (AreRead (p ∷ ps)) rest h λ f reads.
        unreadable
          (λ i read.
            IsRead-read_exchange_file files directory policy.max_input_artifact_bytes p i read is)
          reads
  scan_path_complete p ps (err value_raised) rest is h = tt
  scan_path_complete p ps (err package_changed) rest is h = tt
  scan_path_complete p ps (err (ledger e)) rest is h = tt
  scan_path_complete p ps (ok s) rest is h =
      let read =
        Answers-answer _ (read_exchange_file files p directory policy.max_input_artifact_bytes) s
          (read_exchange_file-IsRead files directory policy.max_input_artifact_bytes p) is in
      Answers-then (λ x. x.0.identity ≡ s.identity) (AreRead (p ∷ ps))
        (found_file r policy p s (record_for s.identity records)) _
        (found_file-identity p s (record_for s.identity records) refl)
        λ x same. Answers-then (AreRead ps) (AreRead (p ∷ ps)) rest _ h λ f reads.
          readable (subst⁻¹ (IsRead files directory policy.max_input_artifact_bytes p) same read)
            reads

  scan_paths_complete :
      (ps : List String) → Answers (AreRead ps) (scan_paths r policy files directory records ps)
  unfolding scan_paths
  scan_paths_complete [] = no_path
  scan_paths_complete (p ∷ ps) =
      scan_path_complete p ps (read_exchange_file files p directory policy.max_input_artifact_bytes)
        (scan_paths r policy files directory records ps) refl (scan_paths_complete ps)

current_record-identity :
    (t : List ExchangeStateRecord) (a : ExchangeArtifact) (o : Option ExchangeStateRecord)
    → record_for a.identity t ≡ o
    → Answers (λ e. e.identity ≡ a.identity) (current_record a o)
unfolding current_record record_from_artifact
current_record-identity t a (some e) found = record_for-identity a.identity t e found
current_record-identity t a none found =
    let entry = new_record a.identity a.kind a.selection a.apply_status in
    Answers-reraise (λ e. e.identity ≡ a.identity) value_raised (checked entry)
      (Answers-implies (λ e. entry ≡ e) (λ e. e.identity ≡ a.identity) (checked entry)
        (checked-same entry) λ e is. ap (λ (x : ExchangeStateRecord). x.identity) (sym is))

current_artifact-identity :
    (t : List ExchangeStateRecord) (a : ExchangeArtifact)
    → Answers (λ b. b.identity ≡ a.identity) (current_artifact t a)
unfolding current_artifact
current_artifact-identity t a =
    Answers-then (λ e. e.identity ≡ a.identity) (λ b. b.identity ≡ a.identity)
      (current_record a (record_for a.identity t)) _
      (current_record-identity t a (record_for a.identity t) refl)
      λ e same.
        Answers-reraise (λ b. b.identity ≡ a.identity) value_raised _
          (Answers-implies (Shows e) (λ b. b.identity ≡ a.identity)
            (artifact_from_record a.path e a.mtime_ns a.validated_package)
            (artifact_from_record-Shows a.path e a.mtime_ns a.validated_package)
            λ b shows. shows.identity ∙ same)

current_artifacts-identities :
    (t : List ExchangeStateRecord) (artifacts : List ExchangeArtifact)
    → Answers (λ bs. identities bs ≡ identities artifacts) (current_artifacts t artifacts)
unfolding current_artifacts
current_artifacts-identities t [] = refl
current_artifacts-identities t (a ∷ artifacts) =
    Answers-then (λ b. b.identity ≡ a.identity) (λ bs. identities bs ≡ identities (a ∷ artifacts))
      (current_artifact t a) _ (current_artifact-identity t a)
      λ b same.
        Answers-then (λ bs. identities bs ≡ identities artifacts)
          (λ bs. identities bs ≡ identities (a ∷ artifacts)) (current_artifacts t artifacts) _
          (current_artifacts-identities t artifacts) λ bs is. cc

module _ (w : Surroundings) (policy : ResourcePolicy) (directory : String) where
  abbrev Complete : List ExchangeArtifact → Type 0
  Complete = IsComplete w policy directory

  collect-Complete :
      (records : List ExchangeStateRecord)
      → Answers (λ f. Complete f.0) (collect w policy directory records)
  unfolding collect
  collect-Complete records =
      Answers-then (IsListing w.is_temporary directory w.entries) (λ f. Complete f.0)
        (top_level_regular_paths w.is_temporary directory w.entries) _
        (top_level_regular_paths-IsListing w.is_temporary directory w.entries)
        λ ps listed.
          Answers-implies _ (λ f. Complete f.0) _
            (scan_paths_complete w.readers policy w.files directory records ps)
            λ f is. record { paths = ps; listed = listed; complete = is }

  with_current-Complete :
      (artifacts : List ExchangeArtifact) (o : Result StateError (List ExchangeStateRecord) × Disk)
      → Complete artifacts
      → Answers Complete (with_current artifacts o).0
  unfolding with_current
  with_current-Complete artifacts (err e, d) h = tt
  with_current-Complete artifacts (ok records, d) h =
      Answers-implies (λ bs. identities bs ≡ identities artifacts) Complete
        (current_artifacts records artifacts) (current_artifacts-identities records artifacts)
        λ bs is. record {
          paths = h.paths;
          listed = h.listed;
          complete =
              subst⁻¹ (Reads w.files directory policy.max_input_artifact_bytes h.paths) is
                h.complete;
        }

  merge_found-Complete :
      (m : Result ExchangeError Found) (d : Disk)
      → Answers (λ f. Complete f.0) m
      → Answers Complete (merge_found m d).0
  unfolding merge_found
  merge_found-Complete (err e) d h = tt
  merge_found-Complete (ok (artifacts, uncached)) d h =
      with_current-Complete artifacts (merge_exchange_classifications uncached d) h

  scan_loaded-Complete :
      (o : Result StateError (List ExchangeStateRecord) × Disk)
      → Answers Complete (scan_loaded w policy directory o).0
  unfolding scan_loaded
  scan_loaded-Complete (err e, d) = tt
  scan_loaded-Complete (ok records, d) =
      merge_found-Complete (collect w policy directory records) d (collect-Complete records)

  -- Whatever the ledger has, a scan that answers has listed the directory, and returns exactly one
  -- artifact for each entry that is a regular file with no temporary name and that can be read, in the
  -- order of their names. Its identity is the path of the file and the digest of the stable read; a file
  -- can be read if it is its own canonical path, directly in the directory, before and after that read.
  pub scan_exchange_directory-IsComplete :
      (d : Disk) → Answers Complete (scan_exchange_directory w policy directory d).0
  unfolding scan_exchange_directory
  scan_exchange_directory-IsComplete d = scan_loaded-Complete (load_exchange_state d)
