-- ===== src/Tests/Package.antt =====
-- Runs on a patch package and its script: src/patchharbor/patch_package.py and parser.py.
use patch_harbor.Base.{
  ℕ, String, ◌≡◌, refl, arith, all, not, Bool, true, Option, none, some, List, [], ◌∷◌, codes, ok,
  Answers, string_eq, nat_eq, All, contains, string_discrete,
}
use patch_harbor.Models.{sha1, GitObjectId, git_object_id, for_hex_length}
use patch_harbor.Json.{Json}
use patch_harbor.ExchangeState.Record.{fingerprint_algorithm}
use patch_harbor.Bundle.Member.{Text, text_eq, is_safe_path_segment, is_reserved}
use patch_harbor.Zip.Policy.{default_resource_policy}
use patch_harbor.Package.Manifest.{
  PatchManifest, parse_patch_manifest, has_byte_order_mark, manifest_document, from_manifest,
}
use patch_harbor.Package.ManifestLaws.{parse_patch_manifest-manifest_document}
use patch_harbor.Package.Handoff.{BundlePayload}
use patch_harbor.Package.Resolve.{ValidatedPatchPackage, resolve_patch_payloads}
use patch_harbor.Package.RoleLaws.{IsResolved, resolve_patch_payloads-IsResolved}
use patch_harbor.Package.Script.{
  parse_script, required_marker, is_name, message_end, metadata_match, after_prefix, message_start,
  invalid_message_start, is_line_break, warning_eq,
}
use patch_harbor.Package.ScriptLines.{ended, HasNoBreak}
use patch_harbor.Package.ScriptLaws.{
  Directive, meta, block, other, IsDirective, all_lines, metadata_of, messages_of,
  parse_script-ended,
}
use patch_harbor.Package.ScriptWarnings.{AreDistinct, parse_script-AreDistinct}

abbrev base : GitObjectId
base = record { value = "0123456789012345678901234567890123456789"; object_format = sha1 }

abbrev manifest : PatchManifest
manifest = record {
  marker = "patch-harbor";
  format_version = 1;
  repo_id = record { value = "0f1c0d4e-9a3b-4c2d-8e5f-0123456789ab" };
  base_commit = base;
  state_fingerprint = "0123456789abcdef";
  fingerprint_algorithm = "patchharbor-state-v1";
  entrypoint = "run.sh";
}

-- A decoder that gives the document of the manifest.
abbrev loads : List ℕ → Option Json
loads _ = some (manifest_document manifest)

abbrev written : List ℕ
written = codes "{}"

parses : parse_patch_manifest loads written ≡ ok manifest
unfolding parse_patch_manifest manifest_document string_eq string_discrete for_hex_length
    git_object_id
parses = refl

parse_patch_manifest-manifest_document_example :
    (parse_patch_manifest loads written ≡ ok manifest)
    × (from_manifest manifest
        ≡ ok (record {
          repo_id = manifest.repo_id;
          base_commit = base;
          state_fingerprint = "0123456789abcdef";
          fingerprint_algorithm = fingerprint_algorithm;
        }))
unfolding has_byte_order_mark
parse_patch_manifest-manifest_document_example =
    parse_patch_manifest-manifest_document loads written written manifest parses refl refl

abbrev member : String → BundlePayload
member path = record { relative_path = codes path; content = written; unix_mode = none }

abbrev members : List BundlePayload
members = member "patch.json" ∷ member "a.py" ∷ member "run.sh" ∷ []

abbrev resolved : ValidatedPatchPackage
resolved = record {
  manifest = manifest;
  entrypoint = member "run.sh";
  payloads = member "a.py" ∷ [];
  warnings = [];
  handoff = none;
  package_sha256 = none;
  package_size = none;
  entries = members;
}

resolves :
    resolve_patch_payloads (λ _. true) loads loads default_resource_policy none none members
    ≡ ok resolved
unfolding resolve_patch_payloads default_resource_policy manifest_document string_eq string_discrete
    text_eq nat_eq is_safe_path_segment is_reserved for_hex_length git_object_id
resolves = refl

resolve_patch_payloads-IsResolved_example :
    Answers
      (IsResolved members)
      (resolve_patch_payloads (λ _. true) loads loads default_resource_policy none none members)
resolve_patch_payloads-IsResolved_example =
    resolve_patch_payloads-IsResolved (λ _. true) loads loads default_resource_policy none none
      members

abbrev directives : List Directive
directives =
    other (codes "#!/bin/sh")
    ∷ other required_marker
    ∷ meta (codes "AUTHOR") (codes "a = b")
    ∷ block (codes "NOTE.1") (codes "one" ∷ [] ∷ [])
    ∷ other (codes "exit 0")
    ∷ []

directives-IsDirective : All IsDirective directives
unfolding is_name message_end metadata_match after_prefix message_start invalid_message_start
    text_eq nat_eq
directives-IsDirective = (
  (refl, refl, refl, refl),
  ((refl, refl, refl, refl), (refl, ((refl, (refl, (refl, tt))), ((refl, refl, refl, refl), tt)))),
)

has_no_break : Text → Bool
unfolding is_line_break
has_no_break l = all (λ c. not (is_line_break c)) l

has_no_break-HasNoBreak : (l : Text) → has_no_break l ≡ true → HasNoBreak l
unfolding has_no_break
has_no_break-HasNoBreak [] h = tt
has_no_break-HasNoBreak (c ∷ l) h = (ground arith, has_no_break-HasNoBreak l (ground arith))

all_unbroken : (ls : List Text) → all has_no_break ls ≡ true → All HasNoBreak ls
all_unbroken [] h = tt
all_unbroken (l ∷ ls) h = (has_no_break-HasNoBreak l (ground arith), all_unbroken ls (ground arith))

directives-HasNoBreak : All HasNoBreak (all_lines directives)
unfolding has_no_break
directives-HasNoBreak = all_unbroken (all_lines directives) refl

directives_marked : contains (all_lines directives) required_marker ≡ true
unfolding text_eq nat_eq
directives_marked = refl

parse_script-ended_example :
    parse_script (ended (all_lines directives))
    ≡ ok (record {
      script_text = ended (all_lines directives);
      metadata = metadata_of directives;
      messages = messages_of directives;
      warnings = [];
    })
parse_script-ended_example =
    parse_script-ended directives directives-IsDirective directives-HasNoBreak directives_marked

parse_script-AreDistinct_example :
    Answers
      (λ p. (p.script_text ≡ ended (all_lines directives)) × AreDistinct p.warnings)
      (parse_script (ended (all_lines directives)))
parse_script-AreDistinct_example = parse_script-AreDistinct (ended (all_lines directives))
