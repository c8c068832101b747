-- ===== src/Registry/Document.antt =====
-- src/patchharbor/registry.py: the document of the registry.
use patch_harbor.Base.{
  String, Bool, false, Option, some, List, [], ◌∷◌, ◌=ℕ◌, Result, ok, err, ◌>>=◌, ◌>>◌, require,
  reraise, insert,
}
use patch_harbor.Models.{repository_id, repository_id_eq}
use patch_harbor.Json.{
  Json, boolean, number, whole_float, text, object, Fields, end, field, get, has_exactly,
  has_unique_keys,
}
use patch_harbor.Registry.Mapping.{
  repository_path, RegistryMapping, RegistryEntries, RegistryError, invalid_document,
  RegistrySnapshot, registry_snapshot, registry_entries,
}

-- `value == 1` in Python, which `True` and `1.0` pass.
unfoldable pub equals_one : Option Json → Bool
equals_one (some (number n)) = n =ℕ 1
equals_one (some (whole_float n)) = n =ℕ 1
equals_one (some (boolean b)) = b
equals_one _ = false

unfoldable pub parse_entries : Fields → RegistryEntries → Result RegistryError RegistryEntries
unfolding repository_id repository_path insert
parse_entries end entries = ok entries
parse_entries (field raw_id (text raw_path) rest) entries = do
  repo_id ← reraise invalid_document (repository_id raw_id)
  path ← reraise invalid_document (repository_path raw_path)
  parse_entries rest (insert repo_id path entries)
parse_entries (field raw_id _ rest) entries = err invalid_document

unfoldable pub entries_of_field : Option Json → Result RegistryError RegistryEntries
unfolding parse_entries
entries_of_field (some (object fs)) = parse_entries fs []
entries_of_field _ = err invalid_document

abbrev pub registry_fields : List String
registry_fields = "format_version" ∷ "repositories" ∷ []

-- `_parse_registry`, from the document that the bytes hold
unfoldable pub parse_registry : Json → Result RegistryError RegistrySnapshot
unfolding has_unique_keys has_exactly get equals_one entries_of_field registry_snapshot
parse_registry (object fs) = do
  require (has_unique_keys (object fs)) invalid_document
  require (equals_one (get fs "format_version")) invalid_document
  require (has_exactly registry_fields fs) invalid_document
  entries ← entries_of_field (get fs "repositories")
  registry_snapshot entries
parse_registry _ = err invalid_document

unfoldable pub repository_fields : List RegistryMapping → Fields
repository_fields [] = end
repository_fields (m ∷ ms) =
    field m.repo_id.value (text m.repository_path.value) (repository_fields ms)

-- `_encoded_registry`: the document whose text is written
unfoldable pub encoded_registry : RegistrySnapshot → Result RegistryError Json
unfolding registry_entries registry_snapshot repository_fields
encoded_registry s = do
  entries ← registry_entries s
  canonical ← registry_snapshot entries
  ok (
      object (
        field "format_version" (number 1)
          (field "repositories" (object (repository_fields canonical.repositories)) end)))
