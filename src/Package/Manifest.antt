-- ===== src/Package/Manifest.antt =====
-- src/patchharbor/patch_manifest.py: the manifest of a patch package, and `from_manifest` of
-- exchange_state.py. The decoder of `patch.json` is a parameter: UTF-8, then `json.loads` with the hook
-- that rejects the constants NaN and Infinity; `none` is a raise of either.
use patch_harbor.Base.{
  ℕ, String, ◌&&◌, ◌||◌, not, Bool, false, Option, none, some, List, [], ◌∷◌, ◌=ℕ◌, all, length,
  codes, Result, ok, err, ◌>>=◌, ◌>>◌, require, reraise, ◌==◌, string_eq,
}
use patch_harbor.Models.{ValueError, is_hex, RepositoryId, repository_id, GitObjectId}
use patch_harbor.Json.{
  Json, number, text, object, Fields, end, field, get, has_exactly, has_unique_keys, require_string,
}
use patch_harbor.ExchangeState.Record.{
  ExchangePatchSelection, patch_selection, fingerprint_algorithm,
}
use patch_harbor.ExchangeState.Parse.{parse_commit}

-- The `PatchHarborError`s of the package's files, by what they are about; `invalid_digest` is the
-- `ValueError` of a digest that the caller has not computed.
pub data PackageError : Type 0 where
  byte_order_mark undecodable invalid_document invalid_fields invalid_field : PackageError
  invalid_handoff unsafe_path missing_manifest missing_entrypoint invalid_digest : PackageError

pub record PatchManifest : Type 0 where
  pub marker : String
  pub format_version : ℕ
  pub repo_id : RepositoryId
  pub base_commit : GitObjectId
  pub state_fingerprint : String
  pub fingerprint_algorithm : String
  pub entrypoint : String

abbrev pub patch_manifest_name : String
patch_manifest_name = "patch.json"

abbrev pub patch_marker : String
patch_marker = "patch-harbor"

abbrev pub patch_manifest_fields : List String
patch_manifest_fields =
    "marker" ∷ "format_version" ∷ "repo_id" ∷ "base_commit" ∷ "state_fingerprint"
    ∷ "fingerprint_algorithm" ∷ "entrypoint" ∷ []

-- `payload.startswith(b"\xef\xbb\xbf")`
unfoldable pub has_byte_order_mark : List ℕ → Bool
has_byte_order_mark (a ∷ b ∷ c ∷ _) = a =ℕ 239 && b =ℕ 187 && c =ℕ 191
has_byte_order_mark _ = false

-- A JSON value, at the type of an object
unfoldable pub object_fields : Option Json → Result PackageError Fields
unfolding has_unique_keys
object_fields (some (object fs)) = do require (has_unique_keys (object fs)) undecodable; ok fs
object_fields (some j) = err invalid_document
object_fields none = err undecodable

-- `_parse_json_object`
unfoldable pub parse_json_object : (List ℕ → Option Json) → List ℕ → Result PackageError Fields
unfolding has_byte_order_mark object_fields
parse_json_object loads payload = do
  require (not (has_byte_order_mark payload)) byte_order_mark
  object_fields (loads payload)

unfoldable pub string_field : Fields → String → Result PackageError String
unfolding require_string
string_field fs key = reraise invalid_field (require_string fs key)

-- `type(format_version) is int and format_version == 1`
unfoldable pub is_format_1 : Option Json → Bool
is_format_1 (some (number n)) = n =ℕ 1
is_format_1 _ = false

-- The test of `state_fingerprint`. A text of these characters is its own `lower()`.
unfoldable pub is_fingerprint : String → Bool
unfolding is_hex
is_fingerprint value = length (codes value) =ℕ 16 && all is_hex (codes value)

-- `parse_patch_manifest`, from the fields of the object
unfoldable pub manifest_of_fields : Fields → Result PackageError PatchManifest
unfolding has_exactly string_field get is_format_1 repository_id parse_commit is_fingerprint
    string_eq
manifest_of_fields fs = do
  require (has_exactly patch_manifest_fields fs) invalid_fields
  marker ← string_field fs "marker"
  require (marker == patch_marker) invalid_field
  require (is_format_1 (get fs "format_version")) invalid_field
  repo_id_text ← string_field fs "repo_id"
  repo_id ← reraise invalid_field (repository_id repo_id_text)
  base_commit_text ← string_field fs "base_commit"
  base_commit ← reraise invalid_field (parse_commit base_commit_text)
  state_fingerprint ← string_field fs "state_fingerprint"
  require (is_fingerprint state_fingerprint) invalid_field
  algorithm ← string_field fs "fingerprint_algorithm"
  require (algorithm == fingerprint_algorithm) invalid_field
  entrypoint ← string_field fs "entrypoint"
  require (not (entrypoint == "" || entrypoint == patch_manifest_name)) invalid_field
  ok (record {
    marker = marker;
    format_version = 1;
    repo_id = repo_id;
    base_commit = base_commit;
    state_fingerprint = state_fingerprint;
    fingerprint_algorithm = algorithm;
    entrypoint = entrypoint;
  })

-- `parse_patch_manifest`
unfoldable pub parse_patch_manifest :
    (List ℕ → Option Json) → List ℕ → Result PackageError PatchManifest
unfolding parse_json_object manifest_of_fields
parse_patch_manifest loads payload = do fs ← parse_json_object loads payload; manifest_of_fields fs

-- The `manifest` of `prepare_candidate`, whose text a new package holds
unfoldable pub manifest_document : PatchManifest → Json
manifest_document m = object (
    field "marker" (text patch_marker) (
      field "format_version" (number 1) (
        field "repo_id" (text m.repo_id.value) (
          field "base_commit" (text m.base_commit.value) (
            field "state_fingerprint" (text m.state_fingerprint) (
              field "fingerprint_algorithm" (text m.fingerprint_algorithm)
                (field "entrypoint" (text m.entrypoint) end)))))))

-- `ExchangePatchSelection.from_manifest`
unfoldable pub from_manifest : PatchManifest → Result ValueError ExchangePatchSelection
unfolding patch_selection
from_manifest m =
    patch_selection m.repo_id m.base_commit m.state_fingerprint m.fingerprint_algorithm
