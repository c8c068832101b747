-- ===== src/Package/Handoff.antt =====
-- src/patchharbor/bundle_handoff.py: the passive pair of metadata files in a patch package.
use patch_harbor.Base.{
  ℕ, String, ◌&&◌, not, Bool, false, Option, none, some, List, [], ◌∷◌, ◌=ℕ◌, leb, map, length,
  codes, contains, Result, ok, err, ◌>>=◌, ◌>>◌, require, ◌==◌, string_eq, nat_eq, if◌then◌else◌,
}
use patch_harbor.Json.{Json, text, object, get, has_exactly, has_unique_keys}
use patch_harbor.Bundle.Member.{Text, text_eq, segments, lower_char}
use patch_harbor.Package.Manifest.{
  PackageError, invalid_handoff, PatchManifest, has_byte_order_mark, is_format_1,
}

-- `BundlePayload`. A path is the list of its code points, a content the list of its bytes.
pub record BundlePayload : Type 0 where
  pub relative_path : Text
  pub content : List ℕ
  pub unix_mode : Option ℕ

pub record BundleHandoff : Type 0 where
  pub instructions : List ℕ
  pub environment : List ℕ

abbrev pub handoff_directory : Text
handoff_directory = codes "PATCHHARBOR_META"

abbrev pub instructions_path : Text
instructions_path = codes "PATCHHARBOR_META/CHAT_INSTRUCTIONS.md"

abbrev pub environment_path : Text
environment_path = codes "PATCHHARBOR_META/environment.json"

-- `payload.relative_path.split("/", 1)[0]`
unfoldable pub first_segment : List Text → Text
first_segment [] = []
first_segment (s ∷ _) = s

-- The test of `metadata`. Member paths are ASCII, where `casefold` is `lower_char`.
unfoldable pub is_metadata : BundlePayload → Bool
unfolding first_segment segments text_eq
is_metadata p =
    map lower_char (first_segment (segments p.relative_path)) == map lower_char handoff_directory

unfoldable pub metadata_of : List BundlePayload → List BundlePayload
unfolding is_metadata
metadata_of [] = []
metadata_of (p ∷ ps) = if is_metadata p then p ∷ metadata_of ps else metadata_of ps

unfoldable pub without_metadata : List BundlePayload → List BundlePayload
unfolding is_metadata
without_metadata [] = []
without_metadata (p ∷ ps) = if is_metadata p then without_metadata ps else p ∷ without_metadata ps

-- The two members, in either order
unfoldable pub pair_of : List BundlePayload → Result PackageError BundleHandoff
unfolding text_eq
pair_of (a ∷ b ∷ []) =
    if a.relative_path == instructions_path && b.relative_path == environment_path
    then ok (record { instructions = a.content; environment = b.content })
    else if a.relative_path == environment_path && b.relative_path == instructions_path
    then ok (record { instructions = b.content; environment = a.content })
    else err invalid_handoff
pair_of _ = err invalid_handoff

-- `MAX_HANDOFF_ENTRY_BYTES`
abbrev pub max_handoff_entry_bytes : ℕ
max_handoff_entry_bytes = 131072

unfoldable pub is_handoff_text : (List ℕ → Bool) → List ℕ → Bool
unfolding has_byte_order_mark
is_handoff_text decodes raw =
    not (length raw =ℕ 0)
    && leb (length raw) max_handoff_entry_bytes
    && not (has_byte_order_mark raw)
    && decodes raw

unfoldable pub is_text : Option Json → String → Bool
unfolding string_eq
is_text (some (text s)) expected = s == expected
is_text _ expected = false

abbrev binding_fields : List String
binding_fields = "repo_id" ∷ "base_commit" ∷ "state_fingerprint" ∷ "fingerprint_algorithm" ∷ []

-- `environment.get("repository_context") == {…}`
unfoldable pub binds : PatchManifest → Option Json → Bool
unfolding has_exactly get is_text
binds m (some (object fs)) =
    has_exactly binding_fields fs
    && is_text (get fs "repo_id") m.repo_id.value
    && is_text (get fs "base_commit") m.base_commit.value
    && is_text (get fs "state_fingerprint") m.state_fingerprint
    && is_text (get fs "fingerprint_algorithm") m.fingerprint_algorithm
binds m _ = false

-- The checks of the environment document
unfoldable pub is_environment : PatchManifest → Option Json → Bool
unfolding get is_text is_format_1 binds has_unique_keys
is_environment m (some (object fs)) =
    has_unique_keys (object fs)
    && is_text (get fs "marker") "patch-harbor-environment"
    && is_format_1 (get fs "format_version")
    && is_text (get fs "bundle_type") "Patch"
    && binds m (get fs "repository_context")
is_environment m _ = false

-- The decoders of the contents: whether bytes are UTF-8, and what `json.loads` makes of them, with the
-- hook that rejects the constants NaN and Infinity.
module _ (decodes : List ℕ → Bool) (loads : List ℕ → Option Json) where
  unfoldable pub checked_handoff :
      PatchManifest → List BundlePayload → Result PackageError BundleHandoff
  unfolding pair_of is_handoff_text is_environment text_eq
  checked_handoff m metadata = do
    handoff ← pair_of metadata
    require (not (contains (instructions_path ∷ environment_path ∷ []) (codes m.entrypoint)))
        invalid_handoff
    require (is_handoff_text decodes handoff.instructions) invalid_handoff
    require (is_handoff_text decodes handoff.environment) invalid_handoff
    require (is_environment m (loads handoff.environment)) invalid_handoff
    ok handoff

  unfoldable pub split_by :
      PatchManifest
      → List BundlePayload
      → List BundlePayload
      → Result PackageError (List BundlePayload × Option BundleHandoff)
  unfolding checked_handoff without_metadata
  split_by m payloads [] = ok (payloads, none)
  split_by m payloads (p ∷ ps) = do
    handoff ← checked_handoff m (p ∷ ps)
    ok (without_metadata payloads, some handoff)

  -- `split_patch_handoff`
  unfoldable pub split_patch_handoff :
      List BundlePayload
      → PatchManifest
      → Result PackageError (List BundlePayload × Option BundleHandoff)
  unfolding split_by metadata_of
  split_patch_handoff payloads m = split_by m payloads (metadata_of payloads)
