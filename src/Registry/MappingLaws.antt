-- ===== src/Registry/MappingLaws.antt =====
-- src/patchharbor/registry.py: what a new snapshot maps, ID by ID.
use mathlib.Core.Option.{or_else}
use patch_harbor.Base.{
  ap, ◌∙◌, ◌≡◌, Option, none, some, [], arith, if◌then◌else◌, ok, Result-cases, inl, inr, ◌==◌,
  string_eq, lookup, insert, lookup-insert, IsUnique, IsUnique-insert,
}
use patch_harbor.Models.{RepositoryId, repository_id_eq}
use patch_harbor.Registry.Mapping.{
  RepositoryPath, repository_path_eq, RegistryEntries, RegistrySnapshot, canonical_repository_id,
  canonical_repository_path, canonical_entries, sort_entries, mappings, registry_snapshot,
  registry_entries, without_path, pop, replace_registry_mapping, remove_registry_mapping,
}
use patch_harbor.Registry.Entries.{
  path_of, unless_path, canonical_repository_id-same, canonical_repository_path-same,
  lookup-canonical_entries, IsUnique-canonical_entries, lookup-sort_entries, path_of-mappings,
  lookup-collect_entries, IsUnique-collect_entries, lookup-without_path, IsUnique-without_path,
  lookup-pop, IsUnique-pop,
}

path_of-registry_snapshot :
    (j : RepositoryId) (es : RegistryEntries) (t : RegistrySnapshot)
    → IsUnique es
    → registry_snapshot es ≡ ok t
    → path_of j t.repositories ≡ lookup j es
unfolding registry_snapshot or_else lookup
path_of-registry_snapshot j es t unique h = elim (Result-cases (canonical_entries es [])) [
  | inl (r, is) ↦
      ap (λ s. path_of j s.repositories) (made r is)
      ∙ (path_of-mappings j (sort_entries r)
          ∙ (lookup-sort_entries j r (IsUnique-canonical_entries es [] r tt is)
              ∙ or_none r (lookup-canonical_entries j es [] r unique is)))
  | inr (e, is) ↦ ground (arith, h, is)
]
  where
    made :
        (r : RegistryEntries)
        → canonical_entries es [] ≡ ok r
        → t ≡ record { repositories = mappings (sort_entries r) }
    made r is = ground (arith, h, is)

    or_none :
        (r : RegistryEntries)
        → lookup j r ≡ or_else (lookup j es) (lookup j [])
        → lookup j r ≡ lookup j es
    or_none r is = ground (arith, is)

-- What a change of the entries of a snapshot makes of each ID.
path_of-changed :
    (change : RegistryEntries → RegistryEntries)
    (effect : RepositoryId → Option RepositoryPath → Option RepositoryPath)
    → ((es : RegistryEntries) → IsUnique es → IsUnique (change es))
    → ((j : RepositoryId) (es : RegistryEntries)
        → IsUnique es
        → lookup j (change es) ≡ effect j (lookup j es))
    → (s t : RegistrySnapshot) (es : RegistryEntries) (j : RepositoryId)
    → registry_entries s ≡ ok es
    → registry_snapshot (change es) ≡ ok t
    → path_of j t.repositories ≡ effect j (path_of j s.repositories)
unfolding registry_entries or_else lookup
path_of-changed change effect unique changes s t es j is h =
    let once = IsUnique-collect_entries s.repositories [] es tt is in
    path_of-registry_snapshot j (change es) t (unique es once) h
    ∙ (changes j es once
        ∙ ap (effect j) (none_or (lookup-collect_entries j s.repositories [] es is)))
  where
    none_or :
        lookup j es ≡ or_else (lookup j []) (path_of j s.repositories)
        → lookup j es ≡ path_of j s.repositories
    none_or found = found

-- What a replacement maps an ID to, from what the ID was mapped to.
abbrev pub replaced :
    RepositoryId → RepositoryPath → RepositoryId → Option RepositoryPath → Option RepositoryPath
replaced i p j before = if i == j then some p else unless_path p before

-- A replacement that succeeds maps the ID to the path, no other ID to it, and every ID that was mapped
-- to another path as before.
pub path_of-replace_registry_mapping :
    (s t : RegistrySnapshot) (i : RepositoryId) (p : RepositoryPath) (j : RepositoryId)
    → replace_registry_mapping s i p ≡ ok t
    → path_of j t.repositories ≡ replaced i p j (path_of j s.repositories)
unfolding replace_registry_mapping
path_of-replace_registry_mapping s t i p j h = elim (Result-cases (canonical_repository_id i)) [
  | inl (k, isi) ↦ elim (Result-cases (canonical_repository_path p)) [
    | inl (q, isp) ↦ elim (Result-cases (registry_entries s)) [
      | inl (es, are) ↦
          path_of-changed (λ ds. insert i p (without_path p ds)) (replaced i p)
            (λ ds once. IsUnique-insert i p (without_path p ds) (IsUnique-without_path p ds once))
            (λ l ds once.
              lookup-insert l i p (without_path p ds)
              ∙ ap (λ o. if i == l then some p else o) (lookup-without_path l p ds once))
            s t es j are
            (ground (
              arith,
              h,
              isi,
              isp,
              are,
              canonical_repository_id-same i k isi,
              canonical_repository_path-same p q isp,
            ))
      | inr (e, are) ↦ ground (arith, h, isi, isp, are)
    ]
    | inr (e, isp) ↦ ground (arith, h, isi, isp)
  ]
  | inr (e, isi) ↦ ground (arith, h, isi)
]

-- A removal that succeeds maps the ID to nothing and every other ID as before.
pub path_of-remove_registry_mapping :
    (s t : RegistrySnapshot) (i j : RepositoryId)
    → remove_registry_mapping s i ≡ ok t
    → path_of j t.repositories ≡ (if i == j then none else path_of j s.repositories)
unfolding remove_registry_mapping
path_of-remove_registry_mapping s t i j h = elim (Result-cases (registry_entries s)) [
  | inl (es, are) ↦ elim (Result-cases (canonical_repository_id i)) [
    | inl (k, isi) ↦
        path_of-changed (pop i) (λ l o. if i == l then none else o)
          (λ ds once. IsUnique-pop i ds once) (λ l ds once. lookup-pop l i ds once) s t es j are
          (ground (arith, h, isi, are, canonical_repository_id-same i k isi))
    | inr (e, isi) ↦ ground (arith, h, are, isi)
  ]
  | inr (e, are) ↦ ground (arith, h, are)
]
