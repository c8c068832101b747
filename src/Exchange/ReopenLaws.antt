-- ===== src/Exchange/ReopenLaws.antt =====
-- src/patchharbor/exchange.py: what is returned of a file that is read again.
use mathlib.Core.Path.{subst}
use patch_harbor.Base.{
  Bool, ℕ, String, ◌≡◌, refl, sym, ap, ◌∙◌, inl, inr, true, ◌&&◌, Option, none, some, arith,
  is_some, Result, ok, err, require, reraise, require-ok, Answers, Answers-all, Answers-after,
  Answers-then, Answers-implies, ◌==◌, same-key, option_eq, Answers-answer,
}
use patch_harbor.ExchangeState.Record.{
  ExchangeFileIdentity, ExchangePatchSelection, identity_eq, selection_eq,
}
use patch_harbor.Zip.Policy.{ResourcePolicy, default_resource_policy}
use patch_harbor.Package.Manifest.{from_manifest}
use patch_harbor.Package.ManifestLaws.{IsManifest}
use patch_harbor.Package.Resolve.{ValidatedPatchPackage}
use patch_harbor.Exchange.Artifact.{ExchangeArtifact, ContentClassification, is_package}
use patch_harbor.Exchange.Classify.{Readers, classify_content}
use patch_harbor.Exchange.Files.{
  ExchangeError, scan_error, value_raised, package_changed, FileView, ExchangeFileSnapshot,
  read_exchange_file, or_raise,
}
use patch_harbor.Exchange.ClassifyLaws.{
  IsClassified, classify_content-IsClassified, IsCaptured, read_exchange_file-IsCaptured,
  reraise-ok,
}
use patch_harbor.Exchange.Reopen.{
  as_changed, is_same_package, materialize_exchange_patch, require_exchange_identity_unchanged,
  read_exchange_artifact_content,
}

-- The file at a path is the one that was classified: it is captured there, with the same digest.
pub record IsUnchanged (files : String → FileView) (path : String) (i : ExchangeFileIdentity)
    (directory : String) (limit : ℕ) : Type 0 where
  pub now : ExchangeFileSnapshot
  pub captured : IsCaptured files path directory limit now
  pub same : now.identity ≡ i

-- The package is the one of the file, for the binding that was classified.
pub record IsMaterialized (files : String → FileView) (r : Readers) (policy : ResourcePolicy)
    (a : ExchangeArtifact) (directory : String) (pkg : ValidatedPatchPackage) : Type 0 where
  pub unchanged : IsUnchanged files a.path a.identity directory policy.max_input_artifact_bytes
  pub classification : ContentClassification
  pub classified : classify_content r policy unchanged.now.content ≡ ok classification
  pub package_of : classification.validated_package ≡ some pkg
  pub selected : ExchangePatchSelection
  pub selects : from_manifest pkg.manifest ≡ ok selected
  pub selection : a.selection ≡ some selected
  pub manifest : IsManifest pkg.manifest
  pub package_kind : is_package a.kind ≡ true
  pub classified_kind : is_package classification.kind ≡ true
  pub classified_selection : classification.selection ≡ a.selection

as_changed-same {ℓ ι} :
    {A : Type ℓ} (P : A → Type ι) (m : Result ExchangeError A)
    → Answers P m
    → Answers P (as_changed m)
unfolding as_changed
as_changed-same P (ok a) h = h
as_changed-same P (err scan_error) h = tt
as_changed-same P (err value_raised) h = tt
as_changed-same P (err package_changed) h = tt
as_changed-same P (err (ExchangeError.ledger e)) h = tt

-- A classification that passes the last test is that of a package for the artifact's binding.
record IsFor (a : ExchangeArtifact) (c : ContentClassification) (pkg : ValidatedPatchPackage)
    : Type 0 where
  selected : ExchangePatchSelection
  selects : from_manifest pkg.manifest ≡ ok selected
  selection : a.selection ≡ some selected
  manifest : IsManifest pkg.manifest

same_package-IsFor :
    (a : ExchangeArtifact) (c : ContentClassification) (pkg : ValidatedPatchPackage)
    → IsClassified c
    → is_same_package a c ≡ true
    → c.validated_package ≡ some pkg
    → IsFor a c pkg
unfolding is_same_package is_package
same_package-IsFor a c pkg (inl is) same found =
    cc (ap (λ (c : ContentClassification). c.validated_package) is)
same_package-IsFor a c pkg (inr (inl is)) same found =
    cc (ap (λ (c : ContentClassification). c.validated_package) is)
same_package-IsFor a c pkg (inr (inr p)) same found =
    let here : some p.validated ≡ some pkg =
      sym (ap (λ (c : ContentClassification). c.validated_package) p.is) ∙ found in
    let chosen : c.selection ≡ some p.selected =
      ap (λ (c : ContentClassification). c.selection) p.is in
    let e : p.validated ≡ pkg = cc in
    record {
      selected = p.selected;
      selects =
          subst (λ (v : ValidatedPatchPackage). from_manifest v.manifest ≡ ok p.selected) e
            p.selects;
      selection = sym (same-key c.selection a.selection (same_selection same)) ∙ chosen;
      manifest = subst (λ (v : ValidatedPatchPackage). IsManifest v.manifest) e p.manifest;
    }
  where
    same_selection : is_same_package a c ≡ true → c.selection == a.selection ≡ true
    same_selection h = ground arith

same_package-parts :
    (a : ExchangeArtifact) (c : ContentClassification)
    → is_same_package a c ≡ true
    → (is_package c.kind ≡ true) × (c.selection ≡ a.selection)
unfolding is_same_package
same_package-parts a c h = (ground (arith, h), same-key c.selection a.selection (ground (arith, h)))

both-true : (p q : Bool) → (p && q) ≡ true → p ≡ true
both-true p q h = ground arith

or_raise-some {ℓ} :
    {A : Type ℓ} (e : ExchangeError) (o : Option A) → Answers (λ a. o ≡ some a) (or_raise e o)
or_raise-some e none = tt
or_raise-some e (some a) = refl

module _ (files : String → FileView) (directory : String) where
  pub materialize_exchange_patch-IsMaterialized :
      (r : Readers) (policy : ResourcePolicy) (a : ExchangeArtifact)
      → Answers
          (IsMaterialized files r policy a directory)
          (materialize_exchange_patch files r policy a directory)
  unfolding materialize_exchange_patch
  materialize_exchange_patch-IsMaterialized r policy a =
      let limit = policy.max_input_artifact_bytes in
      let P = IsMaterialized files r policy a directory in
      let captured = IsCaptured files a.path directory limit in
      Answers-after P (require (is_package a.kind && is_some a.selection) value_raised) _ λ t kind.
        Answers-then captured P (as_changed (read_exchange_file files a.path directory limit)) _
          (as_changed-same captured (read_exchange_file files a.path directory limit)
            (read_exchange_file-IsCaptured files a.path directory limit))
          λ s is_captured.
            Answers-after P (require (s.identity == a.identity) package_changed) _ λ u same.
              Answers-then (λ c. classify_content r policy s.content ≡ ok c) P
                (reraise value_raised (classify_content r policy s.content)) _
                (reraise-ok value_raised (classify_content r policy s.content))
                λ c classified.
                  Answers-after P (require (is_same_package a c) package_changed) _ λ v fits.
                    Answers-implies (λ pkg. c.validated_package ≡ some pkg) P
                      (or_raise package_changed c.validated_package)
                      (or_raise-some package_changed c.validated_package)
                      λ pkg found.
                        let for =
                          same_package-IsFor a c pkg
                            (Answers-answer IsClassified (classify_content r policy s.content) c
                              (classify_content-IsClassified r policy s.content) classified)
                            (require-ok _ package_changed v fits) found in
                        record {
                          unchanged = record {
                            now = s;
                            captured = is_captured;
                            same =
                                same-key s.identity a.identity
                                  (require-ok _ package_changed u same);
                          };
                          classification = c;
                          classified = classified;
                          package_of = found;
                          selected = for.selected;
                          selects = for.selects;
                          selection = for.selection;
                          manifest = for.manifest;
                          package_kind =
                              both-true (is_package a.kind) (is_some a.selection)
                                (require-ok _ value_raised t kind);
                          classified_kind =
                              (same_package-parts a c (require-ok _ package_changed v fits)).0;
                          classified_selection =
                              (same_package-parts a c (require-ok _ package_changed v fits)).1;
                        }

  require_exchange_identity_unchanged-IsUnchanged :
      (i : ExchangeFileIdentity)
      → Answers
          (λ _. IsUnchanged files i.path i directory 1)
          (require_exchange_identity_unchanged files i directory)
  unfolding require_exchange_identity_unchanged
  require_exchange_identity_unchanged-IsUnchanged i =
      let captured = IsCaptured files i.path directory 1 in
      Answers-then captured _ (as_changed (read_exchange_file files i.path directory 1)) _
        (as_changed-same captured (read_exchange_file files i.path directory 1)
          (read_exchange_file-IsCaptured files i.path directory 1))
        λ s is_captured. Answers-all _ (require (s.identity == i) package_changed) λ u same.
          record {
            now = s;
            captured = is_captured;
            same = same-key s.identity i (require-ok _ package_changed u same);
          }

  abbrev content_limit : ℕ
  content_limit = default_resource_policy.max_input_artifact_bytes

  pub read_exchange_artifact_content-IsUnchanged :
      (a : ExchangeArtifact)
      → Answers
          (λ raw.
            (u : IsUnchanged files a.path a.identity directory content_limit) × (u.now.content
              ≡ some raw))
          (read_exchange_artifact_content files a directory)
  unfolding read_exchange_artifact_content
  read_exchange_artifact_content-IsUnchanged a =
      let captured = IsCaptured files a.path directory content_limit in
      Answers-then captured _ (read_exchange_file files a.path directory content_limit) _
        (read_exchange_file-IsCaptured files a.path directory content_limit)
        λ s is_captured. Answers-after _ (require (s.identity == a.identity) scan_error) _ λ u same.
          Answers-implies (λ raw. s.content ≡ some raw) _ (or_raise scan_error s.content)
            (or_raise-some scan_error s.content)
            λ raw found. (
              record {
                now = s;
                captured = is_captured;
                same = same-key s.identity a.identity (require-ok _ scan_error u same);
              },
              found,
            )
