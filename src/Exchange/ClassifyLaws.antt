-- ===== src/Exchange/ClassifyLaws.antt =====
-- src/patchharbor/exchange.py: what a classification and a capture are.
use mathlib.Core.Path.{subst, subst⁻¹}
use patch_harbor.Base.{
  equal_test, same-key_refl, bind_ok, require_ok, ℕ, String, ◌≡◌, refl, sym, ap, ◌∙◌, ◌⊎◌, inl, inr,
  Bool, true, false, ◌&&◌, Option, none, some, List, arith, length, codes, if◌then◌else◌, Result,
  ok, err, require, reraise, require-ok, Answers, Answers-all, Answers-after, Answers-then,
  Answers-implies, Result-cases, ◌==◌, same-key, string_eq,
}
use patch_harbor.Models.{ValueError, RepositoryId, GitObjectId, git_object_id, for_hex_length}
use patch_harbor.Paths.{path_text, parent}
use patch_harbor.ExchangeState.Record.{
  ExchangeFileIdentity, file_identity, ExchangePatchSelection, patch_selection, ExchangeStateRecord,
  checked, selection_eq,
}
use patch_harbor.ExchangeState.Parse.{parse_commit}
use patch_harbor.ExchangeState.RoundTrip.{AllOf, IsSelection, IsStorable, IsCommit}
use patch_harbor.Zip.Policy.{ResourcePolicy}
use patch_harbor.Zip.Members.{ZipPayloadError}
use patch_harbor.Package.Manifest.{PackageError, PatchManifest, from_manifest}
use patch_harbor.Package.ManifestLaws.{IsManifest}
use patch_harbor.Package.Handoff.{BundlePayload}
use patch_harbor.Package.Resolve.{ValidatedPatchPackage, resolve_patch_payloads}
use patch_harbor.Package.RoleLaws.{IsResolved, resolve_patch_payloads-IsResolved}
use patch_harbor.Exchange.Artifact.{
  patch_package, ContentClassification, record_from_classification, kind_value,
}
use patch_harbor.Exchange.Classify.{
  Readers, other_content, result_content, package_content, classify_payloads, classify_content,
  has_result_marker, read_result_or_patch_payloads,
}
use patch_harbor.Exchange.Files.{
  ExchangeError, scan_error, value_raised, StableFile, FileView, ExchangeFileSnapshot, or_raise,
  read_exchange_file,
}

-- The package of a classification, with the selection that its manifest has.
pub record IsPackage (c : ContentClassification) : Type 0 where
  pub validated : ValidatedPatchPackage
  pub selected : ExchangePatchSelection
  pub is : c ≡ record {
    kind = patch_package;
    selection = some selected;
    validated_package = some validated;
  }
  pub selects : from_manifest validated.manifest ≡ ok selected
  pub manifest : IsManifest validated.manifest

abbrev pub IsClassified : ContentClassification → Type 0
IsClassified c = (c ≡ other_content) ⊎ ((c ≡ result_content) ⊎ IsPackage c)

abbrev HasManifest : ValidatedPatchPackage → Type 0
HasManifest p = IsManifest p.manifest

package_content-IsClassified :
    (m : Result PackageError ValidatedPatchPackage)
    → Answers HasManifest m
    → Answers IsClassified (package_content m)
unfolding package_content
package_content-IsClassified (ok p) h =
    Answers-after IsClassified (from_manifest p.manifest) _ λ s selects.
      inr (inr (record { validated = p; selected = s; is = refl; selects = selects; manifest = h }))
package_content-IsClassified (err e) h = others e
  where
    others : (e : PackageError) → Answers IsClassified (package_content (err e))
    others PackageError.invalid_digest = tt
    others _ = inl refl

module _ (r : Readers) (policy : ResourcePolicy) where
  classify_payloads-IsClassified :
      (content : List ℕ) (m : Result ZipPayloadError (List BundlePayload))
      → Answers IsClassified (classify_payloads r policy content m)
  unfolding classify_payloads
  classify_payloads-IsClassified content (err e) = inl refl
  classify_payloads-IsClassified content (ok payloads) =
      elim (has_result_marker r payloads)
        as (λ b. Answers IsClassified (
          if b
          then ok result_content
          else package_content (
              resolve_patch_payloads r.decodes r.loads_bytes r.loads policy
                (some (r.sha256 content)) (some (length content)) payloads))) [
                  | true ↦ inr (inl refl)
                  | false ↦ package_content-IsClassified _ (
                      Answers-implies (IsResolved payloads) HasManifest
                        (resolve_patch_payloads r.decodes r.loads_bytes r.loads policy
                          (some (r.sha256 content)) (some (length content)) payloads)
                        (resolve_patch_payloads-IsResolved r.decodes r.loads_bytes r.loads policy
                          (some (r.sha256 content)) (some (length content)) payloads)
                        (λ p resolved. resolved.manifest))
                ]

  pub classify_content-IsClassified :
      (content : Option (List ℕ)) → Answers IsClassified (classify_content r policy content)
  unfolding classify_content
  classify_content-IsClassified none = inl refl
  classify_content-IsClassified (some content) =
      classify_payloads-IsClassified content (read_result_or_patch_payloads r policy content)

-- What has been captured of one path: it was its own canonical path in the directory, before and after
-- the stable read, and the identity is that of the read.
pub record IsCaptured (files : String → FileView) (path directory : String) (limit : ℕ)
    (s : ExchangeFileSnapshot) : Type 0 where
  pub inside : parent path ≡ directory
  pub before : (files path).canonical_before ≡ some path
  pub after : (files path).canonical_after ≡ some path
  pub stable : StableFile
  pub read : (files path).stable limit ≡ some stable
  pub identity : file_identity path stable.sha256 ≡ ok s.identity
  pub content : s.content ≡ stable.content
  pub mtime_ns : s.mtime_ns ≡ stable.mtime_ns

both-true : (a b : Bool) → (a && b) ≡ true → (a ≡ true) × (b ≡ true)
both-true a b h = ground arith

or_raise-some {ℓ} :
    {A : Type ℓ} (e : ExchangeError) (o : Option A) → Answers (λ a. o ≡ some a) (or_raise e o)
or_raise-some e none = tt
or_raise-some e (some a) = refl

pub reraise-ok {ℓ} :
    {A : Type ℓ} (e : ExchangeError) (m : Result ValueError A)
    → Answers (λ a. m ≡ ok a) (reraise e m)
reraise-ok e (ok a) = refl
reraise-ok e (err _) = tt

pub read_exchange_file-IsCaptured :
    (files : String → FileView) (path directory : String) (limit : ℕ)
    → Answers
        (IsCaptured files path directory limit)
        (read_exchange_file files path directory limit)
unfolding read_exchange_file
read_exchange_file-IsCaptured files path directory limit =
    let P = IsCaptured files path directory limit in
    Answers-after P (require (parent path == directory) scan_error) _ λ u inside.
      Answers-then (λ b. (files path).canonical_before ≡ some b) P
        (or_raise scan_error (files path).canonical_before) _ (or_raise-some scan_error _)
        λ before is_before.
          Answers-after P (require (parent before == directory && before == path) scan_error) _
            λ v same.
              Answers-then (λ f. (files path).stable limit ≡ some f) P
                (or_raise scan_error ((files path).stable limit)) _ (or_raise-some scan_error _)
                λ f read.
                  Answers-then (λ a. (files path).canonical_after ≡ some a) P
                    (or_raise scan_error (files path).canonical_after) _
                    (or_raise-some scan_error _)
                    λ after is_after.
                      Answers-after P (require (after == before) scan_error) _ λ w kept.
                        Answers-then (λ i. file_identity after f.sha256 ≡ ok i) P
                          (reraise value_raised (file_identity after f.sha256)) _
                          (reraise-ok value_raised (file_identity after f.sha256))
                          λ i is_identity.
                            let b : before ≡ path =
                              same-key before path
                                (both-true _ _ (require-ok _ scan_error v same)).1 in
                            let a : after ≡ path =
                              same-key after before (require-ok _ scan_error w kept) ∙ b in
                            record {
                              inside =
                                  same-key (parent path) directory
                                    (require-ok _ scan_error u inside);
                              before = is_before ∙ ap some b;
                              after = is_after ∙ ap some a;
                              stable = f;
                              read = read;
                              identity =
                                  ap (λ (t : String). file_identity t f.sha256) (sym a)
                                  ∙ is_identity;
                              content = refl;
                              mtime_ns = refl;
                            }

both_tests : (a b : Bool) → a ≡ true → b ≡ true → (a && b) ≡ true
both_tests a b h k = ground arith

snapshot_eq :
    (s : ExchangeFileSnapshot) (f : StableFile)
    → s.content ≡ f.content
    → s.mtime_ns ≡ f.mtime_ns
    → ◌≡◌ {A = Result ExchangeError ExchangeFileSnapshot}
        (ok (record { identity = s.identity; mtime_ns = f.mtime_ns; content = f.content }))
        (ok s)
snapshot_eq s f h k = cc

-- Such a capture is made.
pub IsCaptured-read_exchange_file :
    (files : String → FileView) (path directory : String) (limit : ℕ) (s : ExchangeFileSnapshot)
    → IsCaptured files path directory limit s
    → read_exchange_file files path directory limit ≡ ok s
unfolding read_exchange_file
IsCaptured-read_exchange_file files path directory limit s h =
    bind_ok _ tt _ (
      require_ok (parent path == directory) scan_error
        (equal_test (parent path) directory h.inside))
    ∙ bind_ok _ path _ (ap (or_raise scan_error) h.before)
    ∙ bind_ok _ tt _ (
        require_ok (parent path == directory && path == path) scan_error
          (both_tests _ _ (equal_test (parent path) directory h.inside) (same-key_refl path)))
    ∙ bind_ok _ h.stable _ (ap (or_raise scan_error) h.read)
    ∙ bind_ok _ path _ (ap (or_raise scan_error) h.after)
    ∙ bind_ok _ tt _ (require_ok (path == path) scan_error (same-key_refl path))
    ∙ bind_ok _ s.identity _ (ap (reraise value_raised) h.identity)
    ∙ snapshot_eq s h.stable h.content h.mtime_ns

-- The identity has the path and the digest of the capture.
file_identity-fields :
    (path sha256 : String) (i : ExchangeFileIdentity)
    → file_identity path sha256 ≡ ok i
    → (i.path ≡ path) × (i.sha256 ≡ sha256)
unfolding file_identity
file_identity-fields path sha256 i h = ground arith

pub file_identity-value :
    (path sha256 : String) (i : ExchangeFileIdentity)
    → file_identity path sha256 ≡ ok i
    → file_identity i.path i.sha256 ≡ ok i
unfolding file_identity
file_identity-value path sha256 i h = ground arith

pub IsCaptured-path :
    {files : String → FileView} {path directory : String} {limit : ℕ} (s : ExchangeFileSnapshot)
    → IsCaptured files path directory limit s
    → s.identity.path ≡ path
IsCaptured-path {path} s c = (file_identity-fields path c.stable.sha256 s.identity c.identity).0

pub IsCaptured-sha256 :
    {files : String → FileView} {path directory : String} {limit : ℕ} (s : ExchangeFileSnapshot)
    (c : IsCaptured files path directory limit s)
    → s.identity.sha256 ≡ c.stable.sha256
IsCaptured-sha256 {path} s c = (file_identity-fields path c.stable.sha256 s.identity c.identity).1

git_object_id-IsCommit :
    (t : String) (f : _) (c : GitObjectId) → git_object_id t f ≡ ok c → IsCommit c
unfolding git_object_id
git_object_id-IsCommit t f c h = ground arith

parse_commit-IsCommit : (t : String) (c : GitObjectId) → parse_commit t ≡ ok c → IsCommit c
unfolding parse_commit
parse_commit-IsCommit t c h = elim (Result-cases (for_hex_length (length (codes t)))) [
  | inl (f, is) ↦ ground (arith, git_object_id-IsCommit t f c, h, is)
  | inr (e, is) ↦ ground (arith, h, is)
]

patch_selection-fields :
    (repo : RepositoryId) (base : GitObjectId) (f a : String) (s : ExchangePatchSelection)
    → patch_selection repo base f a ≡ ok s
    → (s.repo_id ≡ repo)
      × (s.base_commit ≡ base)
      × (patch_selection s.repo_id s.base_commit s.state_fingerprint s.fingerprint_algorithm ≡ ok s)
unfolding patch_selection
patch_selection-fields repo base f a s h = ground arith

-- The binding of a valid manifest can be stored.
pub from_manifest-IsSelection :
    (m : PatchManifest) (s : ExchangePatchSelection)
    → IsManifest m
    → from_manifest m ≡ ok s
    → IsSelection s
unfolding from_manifest
from_manifest-IsSelection m s h is =
    let f =
      patch_selection-fields m.repo_id m.base_commit m.state_fingerprint m.fingerprint_algorithm s
        is in
    record {
      repo_id = rw f.0 h.repo_id;
      base_commit = rw f.1 (parse_commit-IsCommit m.base_commit.value m.base_commit h.base_commit);
      fields = f.2;
    }

checked-same : (a b : ExchangeStateRecord) → checked a ≡ ok b → (a ≡ b) × (checked a ≡ ok a)
unfolding checked
checked-same a b h = ground arith

-- A record that is made from a classification has what it says, and can be stored.
pub record IsEntry (i : ExchangeFileIdentity) (c : ContentClassification) (e : ExchangeStateRecord)
    : Type 0 where
  pub identity : e.identity ≡ i
  pub kind : e.kind ≡ kind_value c.kind
  pub manifest : e.manifest ≡ c.selection
  pub untried : e.apply_status ≡ none
  pub storable : IsStorable e

entry_manifest : (c : ContentClassification) → IsClassified c → AllOf IsSelection c.selection
entry_manifest c (inl is) =
    subst⁻¹ (λ (c : ContentClassification). AllOf IsSelection c.selection) is tt
entry_manifest c (inr (inl is)) =
    subst⁻¹ (λ (c : ContentClassification). AllOf IsSelection c.selection) is tt
entry_manifest c (inr (inr p)) =
    subst⁻¹ (λ (c : ContentClassification). AllOf IsSelection c.selection) p.is
      (from_manifest-IsSelection p.validated.manifest p.selected p.manifest p.selects)

pub record_from_classification-IsEntry :
    (i : ExchangeFileIdentity) (c : ContentClassification)
    → path_text i.path ≡ i.path
    → file_identity i.path i.sha256 ≡ ok i
    → IsClassified c
    → Answers (IsEntry i c) (record_from_classification i c)
unfolding record_from_classification
record_from_classification-IsEntry i c normal valid classified =
    Answers-all (IsEntry i c) (record_from_classification i c) λ e is.
      let s = checked-same _ e is in
      subst (IsEntry i c) s.0 (record {
        identity = refl;
        kind = refl;
        manifest = refl;
        untried = refl;
        storable = record {
          path = normal;
          identity = valid;
          manifest = entry_manifest c classified;
          completed_commit = tt;
          valid = s.1;
        };
      })
