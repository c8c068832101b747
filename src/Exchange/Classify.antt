-- ===== src/Exchange/Classify.antt =====
-- src/patchharbor/exchange.py and result_reader.py: what kind of file some bytes are.
use patch_harbor.Base.{
  ℕ, String, Bool, false, Option, none, some, List, [], ◌∷◌, codes, length, if◌then◌else◌, Result,
  ok, err, ◌>>=◌, ◌==◌, string_eq,
}
use patch_harbor.Models.{ValueError, value_error}
use patch_harbor.Json.{Json, Fields, get}
use patch_harbor.Bundle.Member.{Text, text_eq, BundlePathError, normalize_bundle_path}
use patch_harbor.Zip.Policy.{ResourcePolicy}
use patch_harbor.Zip.Members.{ZipPayloadError, invalid_zip_archive}
use patch_harbor.Zip.Read.{Opened, read_zip_payload_bytes}
use patch_harbor.Package.Manifest.{PackageError, invalid_digest, parse_json_object, from_manifest}
use patch_harbor.Package.Handoff.{BundlePayload, is_text}
use patch_harbor.Package.Resolve.{ValidatedPatchPackage, resolve_patch_payloads}
use patch_harbor.Exchange.Artifact.{patch_package, result_bundle, other, ContentClassification}

-- What the classification uses of the language's library and of other parts: the case folding of texts,
-- `zipfile`, the decoders of JSON (`loads`, behind a strict UTF-8 decoding, and `loads_bytes`), whether
-- bytes are UTF-8, the SHA-256 of bytes in hexadecimal, and the normalizer of members of a Result.
pub record Readers : Type 0 where
  pub casefold : Text → Text
  pub open_archive : List ℕ → Opened
  pub decodes : List ℕ → Bool
  pub loads : List ℕ → Option Json
  pub loads_bytes : List ℕ → Option Json
  pub sha256 : List ℕ → String
  pub result_member_path : Text → Bool → Result BundlePathError Text

abbrev result_manifest_name : Text
result_manifest_name = codes "manifest.json"

unfoldable pub find_result_manifest : List BundlePayload → Option (List ℕ)
unfolding text_eq
find_result_manifest [] = none
find_result_manifest (p ∷ ps) =
    if p.relative_path == result_manifest_name then some p.content else find_result_manifest ps

unfoldable pub has_marker : Result PackageError Fields → Bool
unfolding get is_text
has_marker (ok fs) = is_text (get fs "marker") "patch-harbor-result-bundle"
has_marker (err e) = false

abbrev pub other_content : ContentClassification
other_content = record { kind = other; selection = none; validated_package = none }

abbrev pub result_content : ContentClassification
result_content = record { kind = result_bundle; selection = none; validated_package = none }

-- A `PatchHarborError` means another file; a `ValueError` is not handled.
unfoldable pub package_content :
    Result PackageError ValidatedPatchPackage → Result ValueError ContentClassification
unfolding from_manifest
package_content (ok validated_package) = do
  selection ← from_manifest validated_package.manifest
  ok (record {
    kind = patch_package;
    selection = some selection;
    validated_package = some validated_package;
  })
package_content (err invalid_digest) = err value_error
package_content (err e) = ok other_content

module _ (r : Readers) where
  -- `has_result_marker`; a document that cannot be parsed has none.
  unfoldable pub has_result_marker : List BundlePayload → Bool
  unfolding find_result_manifest has_marker parse_json_object
  has_result_marker payloads = elim (find_result_manifest payloads) [
    | none ↦ false
    | some content ↦ has_marker (parse_json_object r.loads content)
  ]

  unfoldable pub read_result_payloads :
      ResourcePolicy → List ℕ → Result ZipPayloadError (List BundlePayload)
  unfolding read_zip_payload_bytes has_result_marker
  read_result_payloads policy content = do
    payloads ← read_zip_payload_bytes r.casefold r.result_member_path r.open_archive policy content
    if has_result_marker payloads then ok payloads else err invalid_zip_archive

  -- What is done with the outcome of the strict reading.
  unfoldable pub read_again :
      ResourcePolicy
      → List ℕ
      → Result ZipPayloadError (List BundlePayload)
      → Result ZipPayloadError (List BundlePayload)
  unfolding read_result_payloads
  read_again policy content (ok payloads) = ok payloads
  read_again policy content (err invalid_zip_archive) = read_result_payloads policy content
  read_again policy content (err e) = err e

  -- `read_result_or_patch_payloads`
  unfoldable pub read_result_or_patch_payloads :
      ResourcePolicy → List ℕ → Result ZipPayloadError (List BundlePayload)
  unfolding read_again read_zip_payload_bytes normalize_bundle_path
  read_result_or_patch_payloads policy content =
      read_again policy content
        (read_zip_payload_bytes r.casefold normalize_bundle_path r.open_archive policy content)

  unfoldable pub classify_payloads :
      ResourcePolicy
      → List ℕ
      → Result ZipPayloadError (List BundlePayload)
      → Result ValueError ContentClassification
  unfolding has_result_marker package_content resolve_patch_payloads
  classify_payloads policy content (err e) = ok other_content
  classify_payloads policy content (ok payloads) =
      if has_result_marker payloads
      then ok result_content
      else package_content (
          resolve_patch_payloads r.decodes r.loads_bytes r.loads policy (some (r.sha256 content))
            (some (length content)) payloads)

  -- `_classify_content`
  unfoldable pub classify_content :
      ResourcePolicy → Option (List ℕ) → Result ValueError ContentClassification
  unfolding classify_payloads read_result_or_patch_payloads
  classify_content policy none = ok other_content
  classify_content policy (some content) =
      classify_payloads policy content (read_result_or_patch_payloads policy content)
