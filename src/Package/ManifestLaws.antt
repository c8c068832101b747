-- ===== src/Package/ManifestLaws.antt =====
-- src/patchharbor/patch_manifest.py: what a parsed manifest is.
use patch_harbor.Base.{
  ℕ, String, ◌≡◌, refl, same-key, Bool, true, false, Option, some, ◌>>=◌, List, arith, length,
  codes, Result, ok, err, Result-cases, inl, inr, ◌==◌, string_eq, Answers, Answers-bind,
  Answers-after, Answers-answer, require-ok, require, reraise, ◌||◌, not,
}
use patch_harbor.Models.{
  ValueError, RepositoryId, repository_id, GitObjectId, for_hex_length, git_object_id,
}
use patch_harbor.Json.{Json, Fields, has_exactly, has_unique_keys, get, require_string}
use patch_harbor.ExchangeState.Record.{patch_selection, fingerprint_algorithm}
use patch_harbor.ExchangeState.Parse.{parse_commit}
use patch_harbor.Package.Manifest.{
  PackageError, invalid_field, invalid_fields, patch_manifest_fields, PatchManifest, patch_marker,
  patch_manifest_name, string_field, is_format_1, is_fingerprint, parse_json_object, object_fields,
  has_byte_order_mark, manifest_of_fields, parse_patch_manifest, manifest_document, from_manifest,
}

pub record IsManifest (m : PatchManifest) : Type 0 where
  pub marker : m.marker ≡ patch_marker
  pub format_version : m.format_version ≡ 1
  pub repo_id : repository_id m.repo_id.value ≡ ok m.repo_id
  pub base_commit : parse_commit m.base_commit.value ≡ ok m.base_commit
  pub state_fingerprint : is_fingerprint m.state_fingerprint ≡ true
  pub algorithm : m.fingerprint_algorithm ≡ fingerprint_algorithm
  pub entrypoint_named : (m.entrypoint == "") ≡ false
  pub entrypoint_apart : (m.entrypoint == patch_manifest_name) ≡ false

pub repository_id-value :
    (t : String) (r : RepositoryId) → repository_id t ≡ ok r → repository_id r.value ≡ ok r
unfolding repository_id
repository_id-value t r h = ground arith

git_object_id-value :
    (t : String) (f : _) (c : GitObjectId) → git_object_id t f ≡ ok c → c.value ≡ t
unfolding git_object_id
git_object_id-value t f c h = ground arith

pub parse_commit-value :
    (t : String) (c : GitObjectId) → parse_commit t ≡ ok c → parse_commit c.value ≡ ok c
unfolding parse_commit
parse_commit-value t c h = elim (Result-cases (for_hex_length (length (codes t)))) [
  | inl (f, is) ↦ ground (arith, git_object_id-value t f c, h, is)
  | inr (e, is) ↦ ground (arith, h, is)
]

reraise-ok {ℓ} :
    {A : Type ℓ} (e : PackageError) (m : Result ValueError A) (a : A)
    → reraise e m ≡ ok a
    → m ≡ ok a
reraise-ok e (ok b) a h = cc
reraise-ok e (err _) a h = cc

neither : (a b : Bool) → not (a || b) ≡ true → (a ≡ false) × (b ≡ false)
neither a b h = ground arith

manifest_of_fields-IsManifest : (fs : Fields) → Answers IsManifest (manifest_of_fields fs)
unfolding manifest_of_fields
manifest_of_fields-IsManifest fs =
    Answers-bind IsManifest (require (has_exactly patch_manifest_fields fs) invalid_fields) _ λ _.
      Answers-bind IsManifest (string_field fs "marker") _ λ marker.
        Answers-after IsManifest (require (marker == patch_marker) invalid_field) _ λ _ is_marker.
          Answers-bind IsManifest (require (is_format_1 (get fs "format_version")) invalid_field) _
            λ _. Answers-bind IsManifest (string_field fs "repo_id") _ λ repo.
              Answers-after IsManifest (reraise invalid_field (repository_id repo)) _
                λ repo_id is_repo.
                  Answers-bind IsManifest (string_field fs "base_commit") _ λ commit.
                    Answers-after IsManifest (reraise invalid_field (parse_commit commit)) _
                      λ base is_base.
                        Answers-bind IsManifest (string_field fs "state_fingerprint") _
                          λ fingerprint.
                            Answers-after IsManifest
                              (require (is_fingerprint fingerprint) invalid_field) _
                              λ _ is_print.
                                Answers-bind IsManifest (string_field fs "fingerprint_algorithm") _
                                  λ algorithm.
                                    Answers-after IsManifest
                                      (require (algorithm == fingerprint_algorithm) invalid_field) _
                                      λ _ is_algorithm.
                                        Answers-bind IsManifest (string_field fs "entrypoint") _
                                          λ entrypoint.
                                            Answers-after IsManifest
                                              (require
                                                (not (
                                                  entrypoint == ""
                                                  || entrypoint == patch_manifest_name))
                                                invalid_field)
                                              _
                                              λ _ is_entry. record {
                                                marker =
                                                    same-key marker patch_marker
                                                      (require-ok _ invalid_field _ is_marker);
                                                format_version = refl;
                                                repo_id =
                                                    repository_id-value repo repo_id
                                                      (reraise-ok invalid_field _ repo_id is_repo);
                                                base_commit =
                                                    parse_commit-value commit base
                                                      (reraise-ok invalid_field _ base is_base);
                                                state_fingerprint =
                                                    require-ok _ invalid_field _ is_print;
                                                algorithm =
                                                    same-key algorithm fingerprint_algorithm
                                                      (require-ok _ invalid_field _ is_algorithm);
                                                entrypoint_named =
                                                    (neither _ _
                                                      (require-ok _ invalid_field _ is_entry)).0;
                                                entrypoint_apart =
                                                    (neither _ _
                                                      (require-ok _ invalid_field _ is_entry)).1;
                                              }

pub parse_patch_manifest-IsManifest :
    (loads : List ℕ → Option Json) (payload : List ℕ)
    → Answers IsManifest (parse_patch_manifest loads payload)
unfolding parse_patch_manifest
parse_patch_manifest-IsManifest loads payload =
    Answers-bind IsManifest (parse_json_object loads payload) manifest_of_fields
      manifest_of_fields-IsManifest

object_fields_document : Option Json → Result PackageError PatchManifest
unfolding object_fields
object_fields_document j = object_fields j >>= manifest_of_fields

document-parses :
    (m : PatchManifest) → IsManifest m → object_fields_document (some (manifest_document m)) ≡ ok m
unfolding object_fields_document object_fields manifest_of_fields manifest_document get has_exactly
    has_unique_keys string_field require_string is_format_1 string_eq
document-parses m h =
    let known : (m.fingerprint_algorithm == fingerprint_algorithm) ≡ true = rw h.algorithm refl in
    rw
      (h.repo_id, h.base_commit, h.state_fingerprint, known, h.entrypoint_named, h.entrypoint_apart)
      (cc (h.marker, h.format_version))

from_manifest-ok :
    (m : PatchManifest)
    → IsManifest m
    → from_manifest m
      ≡ ok (record {
        repo_id = m.repo_id;
        base_commit = m.base_commit;
        state_fingerprint = m.state_fingerprint;
        fingerprint_algorithm = fingerprint_algorithm;
      })
unfolding from_manifest patch_selection is_fingerprint
from_manifest-ok m h = ground (arith, h.state_fingerprint, h.algorithm)

-- A manifest that was parsed is a fixed point of writing and reading: any bytes with no byte order mark
-- that decode to the document written for it are parsed to the same manifest. Its binding is a valid
-- selection, with the manifest's repository, commit and fingerprint.
pub parse_patch_manifest-manifest_document :
    (loads : List ℕ → Option Json) (payload written : List ℕ) (m : PatchManifest)
    → parse_patch_manifest loads payload ≡ ok m
    → has_byte_order_mark written ≡ false
    → loads written ≡ some (manifest_document m)
    → (parse_patch_manifest loads written ≡ ok m)
      × (from_manifest m
          ≡ ok (record {
            repo_id = m.repo_id;
            base_commit = m.base_commit;
            state_fingerprint = m.state_fingerprint;
            fingerprint_algorithm = fingerprint_algorithm;
          }))
unfolding parse_patch_manifest parse_json_object
parse_patch_manifest-manifest_document loads payload written m parsed marked decodes =
    let h =
      Answers-answer IsManifest (parse_patch_manifest loads payload) m
        (parse_patch_manifest-IsManifest loads payload) parsed in
    (
      rw (marked, decodes) (unfold object_fields_document in document-parses m h),
      from_manifest-ok m h,
    )
