-- ===== src/Exchange/ScanLaws.antt =====
-- src/patchharbor/exchange.py: what a scan returns and what it leaves in the ledger.
use mathlib.Core.Path.{subst, subst⁻¹}
use mathlib.Core.Option.{or_else}
use patch_harbor.Base.{
  ℕ, String, ◌≡◌, refl, ap, ◌∙◌, ◌⊎◌, inl, inr, true, Option, none, some, List, [], ◌∷◌, ◌++◌,
  arith, is_some, All, Result, ok, err, reraise, Answers, Answers-all, Answers-then,
  Answers-implies, Answers-reraise, same-key_refl, Option-cases, string_eq,
}
use patch_harbor.Paths.{path_text}
use patch_harbor.ExchangeState.Record.{
  ExchangeFileIdentity, ExchangeStateRecord, identity_eq, file_identity,
}
use patch_harbor.ExchangeState.Snapshot.{record_for}
use patch_harbor.ExchangeState.RoundTrip.{IsStorable}
use patch_harbor.ExchangeState.ReviseLaws.{record_for-identity}
use patch_harbor.Zip.Policy.{ResourcePolicy}
use patch_harbor.Package.Resolve.{ValidatedPatchPackage}
use patch_harbor.Exchange.Artifact.{
  ExchangeArtifact, ExchangeArtifactKind, artifact_kind, kind_value, exchange_artifact,
  artifact_fits, artifact_from_record, record_from_classification,
}
use patch_harbor.Exchange.Classify.{Readers, classify_content}
use patch_harbor.Exchange.ClassifyLaws.{
  IsClassified, classify_content-IsClassified, IsCaptured, IsCaptured-path,
  read_exchange_file-IsCaptured, IsEntry, record_from_classification-IsEntry, file_identity-value,
}
use patch_harbor.Exchange.Files.{
  ExchangeError, scan_error, value_raised, package_changed, ledger, FileView, ExchangeFileSnapshot,
}
use patch_harbor.Exchange.Scan.{
  Found, found_file, scan_path, scan_paths, current_record, current_artifact, current_artifacts,
}

-- The artifact shows what the record says, and is at the path of the record's identity.
pub record Shows (e : ExchangeStateRecord) (a : ExchangeArtifact) : Type 0 where
  pub identity : a.identity ≡ e.identity
  pub kind : kind_value a.kind ≡ e.kind
  pub selection : a.selection ≡ e.manifest
  pub apply_status : a.apply_status ≡ e.apply_status
  pub path : a.path ≡ e.identity.path

artifact_kind-value : (t : String) → Answers (λ k. kind_value k ≡ t) (artifact_kind t)
unfolding artifact_kind kind_value
artifact_kind-value t =
    Answers-all (λ k. kind_value k ≡ t) (artifact_kind t) (λ k h. ground (arith, h))

exchange_artifact-same :
    (a : ExchangeArtifact)
    → Answers (λ b. (a ≡ b) × (a.path ≡ a.identity.path)) (exchange_artifact a)
unfolding exchange_artifact artifact_fits
exchange_artifact-same a =
    Answers-all (λ b. (a ≡ b) × (a.path ≡ a.identity.path)) (exchange_artifact a)
      (λ b h. ground (arith, h))

abbrev shown :
    String
    → ExchangeStateRecord
    → ℕ
    → Option ValidatedPatchPackage
    → ExchangeArtifactKind
    → ExchangeArtifact
shown path e mtime_ns p kind = record {
  path = path;
  identity = e.identity;
  mtime_ns = mtime_ns;
  kind = kind;
  selection = e.manifest;
  apply_status = e.apply_status;
  validated_package = p;
}

pub artifact_from_record-Shows :
    (path : String) (e : ExchangeStateRecord) (mtime_ns : ℕ) (p : Option ValidatedPatchPackage)
    → Answers (Shows e) (artifact_from_record path e mtime_ns p)
unfolding artifact_from_record
artifact_from_record-Shows path e mtime_ns p =
    Answers-then (λ k. kind_value k ≡ e.kind) (Shows e) (artifact_kind e.kind) _
      (artifact_kind-value e.kind)
      λ k is_kind.
        let a = shown path e mtime_ns p k in
        Answers-implies (λ b. (a ≡ b) × (a.path ≡ a.identity.path)) (Shows e) (exchange_artifact a)
          (exchange_artifact-same a)
          λ b same. subst (Shows e) same.0 (record {
            identity = refl;
            kind = is_kind;
            selection = refl;
            apply_status = refl;
            path = same.1;
          })

-- Each identity that was found is in the records, or among the new ones.
abbrev pub IsKnown : List ExchangeStateRecord → List ExchangeStateRecord → ExchangeArtifact → Type 0
IsKnown records uncached a =
    is_some (or_else (record_for a.identity records) (record_for a.identity uncached)) ≡ true

abbrev pub AreFound : List ExchangeStateRecord → Found → Type 0
AreFound records f = All (IsKnown records f.1) f.0 × All IsStorable f.1

-- The canonical paths of the file system are in the normal form.
abbrev pub IsNormal : (String → FileView) → Type 0
IsNormal files = (p q : String) → (files p).canonical_after ≡ some q → path_text q ≡ q

IsKnown-more :
    (records uncached : List ExchangeStateRecord) (e : ExchangeStateRecord) (a : ExchangeArtifact)
    → IsKnown records uncached a
    → IsKnown records (e ∷ uncached) a
unfolding or_else record_for
IsKnown-more records uncached e a h = ground arith

all-IsKnown-more :
    (records uncached : List ExchangeStateRecord) (e : ExchangeStateRecord)
    (artifacts : List ExchangeArtifact)
    → All (IsKnown records uncached) artifacts
    → All (IsKnown records (e ∷ uncached)) artifacts
all-IsKnown-more records uncached e [] h = tt
all-IsKnown-more records uncached e (a ∷ artifacts) h =
    (IsKnown-more records uncached e a h.0, all-IsKnown-more records uncached e artifacts h.1)

module _ (r : Readers) (policy : ResourcePolicy) (files : String → FileView) (directory : String)
    (records : List ExchangeStateRecord) (normal : IsNormal files) where
  -- One file gives an artifact that is known, with what it adds.
  abbrev Adds : ExchangeArtifact × List ExchangeStateRecord → Type 0
  Adds o =
      ((uncached : List ExchangeStateRecord) → IsKnown records (o.1 ++ uncached) o.0)
      × ((uncached : List ExchangeStateRecord)
          → All IsStorable uncached
          → All IsStorable (o.1 ++ uncached))
      × ((o.1 ≡ []) ⊎ ((e : ExchangeStateRecord) × (o.1 ≡ e ∷ [])))

  IsKnown-cached :
      (cached : ExchangeStateRecord) (a : ExchangeArtifact) (i : ExchangeFileIdentity)
      → record_for i records ≡ some cached
      → Shows cached a
      → (uncached : List ExchangeStateRecord) → IsKnown records uncached a
  unfolding or_else
  IsKnown-cached cached a i found shows uncached =
      let same : a.identity ≡ i = shows.identity ∙ record_for-identity i records cached found in
      rw same (rw found refl)

  IsKnown-new :
      (e : ExchangeStateRecord) (a : ExchangeArtifact)
      → Shows e a
      → (uncached : List ExchangeStateRecord) → IsKnown records (e ∷ uncached) a
  unfolding or_else record_for
  IsKnown-new e a shows uncached = ground (arith, shows.identity, same-key_refl e.identity)

  found_file-Adds :
      (path : String) (s : ExchangeFileSnapshot) (o : Option ExchangeStateRecord)
      → record_for s.identity records ≡ o
      → path_text s.identity.path ≡ s.identity.path
      → file_identity s.identity.path s.identity.sha256 ≡ ok s.identity
      → Answers Adds (found_file r policy path s o)
  unfolding found_file
  found_file-Adds path s (some cached) found normal_path valid =
      Answers-then (Shows cached) Adds
        (reraise value_raised (artifact_from_record path cached s.mtime_ns none)) _
        (Answers-reraise (Shows cached) value_raised _
          (artifact_from_record-Shows path cached s.mtime_ns none))
        λ a shows. (IsKnown-cached cached a s.identity found shows, (λ _ h. h), inl refl)
  found_file-Adds path s none found normal_path valid =
      Answers-then IsClassified Adds (reraise value_raised (classify_content r policy s.content)) _
        (Answers-reraise IsClassified value_raised _
          (classify_content-IsClassified r policy s.content))
        λ c classified.
          Answers-then (IsEntry s.identity c) Adds
            (reraise value_raised (record_from_classification s.identity c)) _
            (Answers-reraise (IsEntry s.identity c) value_raised _
              (record_from_classification-IsEntry s.identity c normal_path valid classified))
            λ e entry.
              Answers-then (Shows e) Adds
                (reraise value_raised (artifact_from_record path e s.mtime_ns c.validated_package))
                _
                (Answers-reraise (Shows e) value_raised _
                  (artifact_from_record-Shows path e s.mtime_ns c.validated_package))
                λ a shows. (IsKnown-new e a shows, (λ _ h. (entry.storable, h)), inr (e, refl))

  all-IsKnown-new :
      (new uncached : List ExchangeStateRecord) (artifacts : List ExchangeArtifact)
      → (new ≡ []) ⊎ ((e : ExchangeStateRecord) × (new ≡ e ∷ []))
      → All (IsKnown records uncached) artifacts
      → All (IsKnown records (new ++ uncached)) artifacts
  all-IsKnown-new new uncached artifacts (inl is) h =
      subst⁻¹ (λ n. All (IsKnown records (n ++ uncached)) artifacts) is h
  all-IsKnown-new new uncached artifacts (inr (e, is)) h =
      subst⁻¹ (λ n. All (IsKnown records (n ++ uncached)) artifacts) is
        (all-IsKnown-more records uncached e artifacts h)

  captured_found :
      (p : String) (s : ExchangeFileSnapshot)
      → IsCaptured files p directory policy.max_input_artifact_bytes s
      → Answers Adds (found_file r policy p s (record_for s.identity records))
  captured_found p s c =
      found_file-Adds p s (record_for s.identity records) refl
        (subst⁻¹ (λ t. path_text t ≡ t) (IsCaptured-path s c) (normal p p c.after))
        (file_identity-value p c.stable.sha256 s.identity c.identity)

  scan_path-AreFound :
      (p : String) (m : Result ExchangeError ExchangeFileSnapshot)
      (rest : Result ExchangeError Found)
      → Answers (IsCaptured files p directory policy.max_input_artifact_bytes) m
      → Answers (AreFound records) rest
      → Answers (AreFound records) (scan_path r policy files directory records p m rest)
  unfolding scan_path
  scan_path-AreFound p (err scan_error) rest c h = h
  scan_path-AreFound p (err value_raised) rest c h = tt
  scan_path-AreFound p (err package_changed) rest c h = tt
  scan_path-AreFound p (err (ledger e)) rest c h = tt
  scan_path-AreFound p (ok s) rest c h =
      Answers-then Adds (AreFound records) (found_file r policy p s (record_for s.identity records))
        _ (captured_found p s c)
        λ o adds.
          Answers-then (AreFound records) (AreFound records) rest _ h λ f found.
            ((adds.0 f.1, all-IsKnown-new o.1 f.1 f.0 adds.2 found.0), adds.1 f.1 found.1)

  pub scan_paths-AreFound :
      (ps : List String)
      → Answers (AreFound records) (scan_paths r policy files directory records ps)
  unfolding scan_paths
  scan_paths-AreFound [] = (tt, tt)
  scan_paths-AreFound (p ∷ ps) =
      scan_path-AreFound p _ _
        (read_exchange_file-IsCaptured files p directory policy.max_input_artifact_bytes)
        (scan_paths-AreFound ps)

-- Each artifact shows the record that the ledger has of it.
abbrev pub IsShown : List ExchangeStateRecord → ExchangeArtifact → Type 0
IsShown t a = (e : ExchangeStateRecord) × (record_for a.identity t ≡ some e) × Shows e a

current_artifact-IsShown :
    (t : List ExchangeStateRecord) (a : ExchangeArtifact)
    → is_some (record_for a.identity t) ≡ true
    → Answers (IsShown t) (current_artifact t a)
unfolding current_artifact current_record
current_artifact-IsShown t a there = elim (Option-cases (record_for a.identity t)) [
  | inl absent ↦ cc
  | inr (e, found) ↦
      rw (found, current_record)
        (Answers-reraise (IsShown t) value_raised _ (
          Answers-implies (Shows e) (IsShown t)
            (artifact_from_record a.path e a.mtime_ns a.validated_package)
            (artifact_from_record-Shows a.path e a.mtime_ns a.validated_package)
            λ b shows.
              let same : b.identity ≡ a.identity =
                shows.identity ∙ record_for-identity a.identity t e found in
              (e, ap (λ i. record_for i t) same ∙ found, shows)))
]

pub current_artifacts-IsShown :
    (t : List ExchangeStateRecord) (artifacts : List ExchangeArtifact)
    → All (λ a. is_some (record_for a.identity t) ≡ true) artifacts
    → Answers (All (IsShown t)) (current_artifacts t artifacts)
unfolding current_artifacts
current_artifacts-IsShown t [] h = tt
current_artifacts-IsShown t (a ∷ artifacts) h =
    Answers-then (IsShown t) (All (IsShown t)) (current_artifact t a) _
      (current_artifact-IsShown t a h.0)
      λ b shown_b.
        Answers-then (All (IsShown t)) (All (IsShown t)) (current_artifacts t artifacts) _
          (current_artifacts-IsShown t artifacts h.1) λ rest shown_rest. (shown_b, shown_rest)
