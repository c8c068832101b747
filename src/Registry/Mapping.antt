-- ===== src/Registry/Mapping.antt =====
-- src/patchharbor/registry.py: snapshots of the registry and the mappings in them.
use patch_harbor.Base.{
  String, not, List, [], ◌∷◌, if◌then◌else◌, Result, ok, ◌>>=◌, ◌>>◌, require, reraise, Eq,
  string_discrete, ◌==◌, string_eq, lookup, insert, is_some, codes, before_or_equal,
}
use patch_harbor.Models.{ValueError, value_error, RepositoryId, repository_id, repository_id_eq}
use patch_harbor.Paths.{path_text, is_absolute}

pub record RepositoryPath : Type 0 where
  pub value : String

unfoldable pub RepositoryPath-discrete : Discrete RepositoryPath
RepositoryPath-discrete = hlevel string_discrete

instance unfoldable pub repository_path_eq : Eq RepositoryPath
unfolding RepositoryPath-discrete string_discrete
repository_path_eq = record { dec = RepositoryPath-discrete }

-- `RepositoryPath(Path(text))`
unfoldable pub repository_path : String → Result ValueError RepositoryPath
unfolding path_text is_absolute
repository_path text = do
  require (is_absolute (path_text text)) value_error
  ok (record { value = path_text text })

pub record RegistryMapping : Type 0 where
  pub repo_id : RepositoryId
  pub repository_path : RepositoryPath

pub record RegistrySnapshot : Type 0 where
  pub repositories : List RegistryMapping

-- `registry_error`
pub data RegistryError : Type 0 where
  noncanonical_id invalid_path duplicate_id invalid_document uninspectable not_regular :
      RegistryError
  unreadable unwritable unrestorable : RegistryError

abbrev pub RegistryEntries : Type 0
RegistryEntries = List (RepositoryId × RepositoryPath)

-- `_canonical_repository_id`
unfoldable pub canonical_repository_id : RepositoryId → Result RegistryError RepositoryId
unfolding repository_id
canonical_repository_id i = do
  canonical ← reraise noncanonical_id (repository_id i.value)
  require (canonical == i) noncanonical_id
  ok canonical

-- `_canonical_repository_path`
unfoldable pub canonical_repository_path : RepositoryPath → Result RegistryError RepositoryPath
unfolding repository_path
canonical_repository_path p = do
  canonical ← reraise invalid_path (repository_path p.value)
  require (canonical == p) invalid_path
  ok canonical

unfoldable pub canonical_entries :
    RegistryEntries → RegistryEntries → Result RegistryError RegistryEntries
unfolding canonical_repository_id canonical_repository_path insert
canonical_entries [] entries = ok entries
canonical_entries ((i, p) ∷ rest) entries = do
  repo_id ← canonical_repository_id i
  repository_path ← canonical_repository_path p
  canonical_entries rest (insert repo_id repository_path entries)

-- `sorted(canonical_entries.items(), key=lambda item: str(item[0]).encode("ascii"))`
unfoldable pub insert_entry : RepositoryId × RepositoryPath → RegistryEntries → RegistryEntries
unfolding before_or_equal
insert_entry e [] = e ∷ []
insert_entry e (f ∷ es) =
    if before_or_equal (codes e.0.value) (codes f.0.value)
    then e ∷ f ∷ es
    else f ∷ insert_entry e es

unfoldable pub sort_entries : RegistryEntries → RegistryEntries
unfolding insert_entry
sort_entries [] = []
sort_entries (e ∷ es) = insert_entry e (sort_entries es)

unfoldable pub mappings : RegistryEntries → List RegistryMapping
mappings [] = []
mappings ((i, p) ∷ es) = record { repo_id = i; repository_path = p } ∷ mappings es

-- `registry_snapshot`
unfoldable pub registry_snapshot : RegistryEntries → Result RegistryError RegistrySnapshot
unfolding canonical_entries sort_entries mappings
registry_snapshot repositories = do
  entries ← canonical_entries repositories []
  ok (record { repositories = mappings (sort_entries entries) })

unfoldable pub collect_entries :
    List RegistryMapping → RegistryEntries → Result RegistryError RegistryEntries
unfolding canonical_repository_id canonical_repository_path lookup insert
collect_entries [] entries = ok entries
collect_entries (m ∷ ms) entries = do
  repo_id ← canonical_repository_id m.repo_id
  repository_path ← canonical_repository_path m.repository_path
  require (not (is_some (lookup repo_id entries))) duplicate_id
  collect_entries ms (insert repo_id repository_path entries)

-- `_registry_entries`
unfoldable pub registry_entries : RegistrySnapshot → Result RegistryError RegistryEntries
unfolding collect_entries
registry_entries s = collect_entries s.repositories []

unfoldable pub without_path : RepositoryPath → RegistryEntries → RegistryEntries
without_path p [] = []
without_path p ((i, q) ∷ es) =
    let rest = without_path p es in if q == p then rest else (i, q) ∷ rest

-- `replace_registry_mapping`
unfoldable pub replace_registry_mapping :
    RegistrySnapshot → RepositoryId → RepositoryPath → Result RegistryError RegistrySnapshot
unfolding canonical_repository_id canonical_repository_path registry_entries without_path insert
    registry_snapshot
replace_registry_mapping s i p = do
  selected_id ← canonical_repository_id i
  selected_path ← canonical_repository_path p
  entries ← registry_entries s
  registry_snapshot (insert selected_id selected_path (without_path selected_path entries))

-- `repositories.pop(repo_id, None)`
unfoldable pub pop : RepositoryId → RegistryEntries → RegistryEntries
pop i [] = []
pop i ((j, p) ∷ es) = let rest = pop i es in if j == i then es else (j, p) ∷ rest

-- `remove_registry_mapping`
unfoldable pub remove_registry_mapping :
    RegistrySnapshot → RepositoryId → Result RegistryError RegistrySnapshot
unfolding canonical_repository_id registry_entries pop registry_snapshot
remove_registry_mapping s i = do
  entries ← registry_entries s
  selected ← canonical_repository_id i
  registry_snapshot (pop selected entries)
