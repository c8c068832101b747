-- ===== src/Tests/Registry.antt =====
-- Runs of the registry: src/patchharbor/registry.py.
use patch_harbor.Base.{
  ◌==◌, ◌≡◌, refl, true, none, [], ◌∷◌, ok, string_eq, string_discrete, nat_eq, if◌then◌else◌,
}
use patch_harbor.Models.{RepositoryId, repository_id_eq}
use patch_harbor.Json.{boolean, object, end, field}
use patch_harbor.ExchangeState.File.{missing, undecodable}
use patch_harbor.Registry.Mapping.{
  RepositoryPath, repository_path_eq, RegistrySnapshot, replace_registry_mapping,
  remove_registry_mapping,
}
use patch_harbor.Registry.Document.{parse_registry}
use patch_harbor.Registry.File.{
  RegistryFile, load_registry_state, write_registry, restore_registry_state,
}
use patch_harbor.Registry.Entries.{path_of}
use patch_harbor.Registry.MappingLaws.{
  replaced, path_of-replace_registry_mapping, path_of-remove_registry_mapping,
}
use patch_harbor.Registry.Rollback.{visible, restore_registry_state-write_registry}

abbrev first : RepositoryId
first = record { value = "0c9e2a44-52a3-4ba5-8d6b-5d1f6fb7b1a2" }

abbrev second : RepositoryId
second = record { value = "1c9e2a44-52a3-4ba5-8d6b-5d1f6fb7b1a2" }

abbrev home : RepositoryPath
home = record { value = "/home/one" }

abbrev work : RepositoryPath
work = record { value = "/work" }

abbrev before : RegistrySnapshot
before = record {
  repositories =
      record { repo_id = first; repository_path = home }
      ∷ record { repo_id = second; repository_path = work }
      ∷ [];
}

-- The second repository has moved to where the first one was.
abbrev after : RegistrySnapshot
after = record { repositories = record { repo_id = second; repository_path = home } ∷ [] }

replace_once : replace_registry_mapping before second home ≡ ok after
unfolding replace_registry_mapping string_eq string_discrete repository_id_eq repository_path_eq
replace_once = refl

path_of-replace_registry_mapping_example :
    path_of first after.repositories
    ≡ replaced second home first (path_of first before.repositories)
path_of-replace_registry_mapping_example =
    path_of-replace_registry_mapping before after second home first replace_once

remove_once : remove_registry_mapping after second ≡ ok (record { repositories = [] })
unfolding remove_registry_mapping string_eq string_discrete repository_id_eq repository_path_eq
remove_once = refl

path_of-remove_registry_mapping_example :
    path_of first [] ≡ (if second == first then none else path_of first after.repositories)
path_of-remove_registry_mapping_example =
    path_of-remove_registry_mapping after (record { repositories = [] }) second first remove_once

abbrev absent : RegistryFile
absent = record {
  kind = missing;
  content = undecodable;
  reading_works = true;
  writing_works = true;
  removing_works = true;
}

absent_state :
    load_registry_state absent
    ≡ ok (record { snapshot = record { repositories = [] }; content = none })
unfolding load_registry_state
absent_state = refl

restore_registry_state-write_registry_example :
    let restored =
      restore_registry_state
        (record { snapshot = record { repositories = [] }; content = none })
        (write_registry before absent).1 in
    (restored.0 ≡ ok tt) × (visible restored.1 ≡ visible absent)
restore_registry_state-write_registry_example =
    restore_registry_state-write_registry absent
      (record { snapshot = record { repositories = [] }; content = none }) before absent_state refl
      refl

-- A version that is `true` passes for version 1.
true_version :
    parse_registry
      (object (field "format_version" (boolean true) (field "repositories" (object end) end)))
    ≡ ok (record { repositories = [] })
unfolding parse_registry string_eq string_discrete
true_version = refl
