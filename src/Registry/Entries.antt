-- ===== src/Registry/Entries.antt =====
-- src/patchharbor/registry.py: the loops over the entries of the registry, as lookups see them.
use mathlib.Core.Path.{subst⁻¹}
use mathlib.Core.Option.{or_else}
use patch_harbor.Base.{
  ap, ◌∙◌, ◌≡◌, refl, Bool, true, false, Option, none, some, List, [], ◌∷◌, arith, if◌then◌else◌,
  ok, Result-cases, inl, inr, ◌==◌, string_eq, lookup, insert, lookup-insert, IsUnique,
  IsUnique-insert,
}
use patch_harbor.Models.{RepositoryId, repository_id, repository_id_eq}
use patch_harbor.Registry.Mapping.{
  RepositoryPath, repository_path, repository_path_eq, RegistryMapping, RegistryEntries,
  canonical_repository_id, canonical_repository_path, canonical_entries, insert_entry, sort_entries,
  mappings, collect_entries, without_path, pop,
}

-- The path that the mappings give to an ID.
unfoldable pub path_of : RepositoryId → List RegistryMapping → Option RepositoryPath
path_of i [] = none
path_of i (m ∷ ms) = if m.repo_id == i then some m.repository_path else path_of i ms

pub canonical_repository_id-same : (i j : RepositoryId) → canonical_repository_id i ≡ ok j → j ≡ i
unfolding canonical_repository_id
canonical_repository_id-same i j h = elim (Result-cases (repository_id i.value)) [
  | inl (k, is) ↦ ground (arith, h, is)
  | inr (e, is) ↦ ground (arith, h, is)
]

pub canonical_repository_path-same :
    (p q : RepositoryPath) → canonical_repository_path p ≡ ok q → q ≡ p
unfolding canonical_repository_path
canonical_repository_path-same p q h = elim (Result-cases (repository_path p.value)) [
  | inl (k, is) ↦ ground (arith, h, is)
  | inr (e, is) ↦ ground (arith, h, is)
]

canonical_entries-cons :
    (i : RepositoryId) (p : RepositoryPath) (es acc r : RegistryEntries)
    → canonical_entries ((i, p) ∷ es) acc ≡ ok r
    → canonical_entries es (insert i p acc) ≡ ok r
unfolding canonical_entries
canonical_entries-cons i p es acc r h = elim (Result-cases (canonical_repository_id i)) [
  | inl (j, is) ↦ elim (Result-cases (canonical_repository_path p)) [
    | inl (q, are) ↦ ground (
      arith,
      h,
      is,
      are,
      canonical_repository_id-same i j is,
      canonical_repository_path-same p q are,
    )
    | inr (e, are) ↦ ground (arith, h, is, are)
  ]
  | inr (e, is) ↦ ground (arith, h, is)
]

pub lookup-canonical_entries :
    (j : RepositoryId) (es acc r : RegistryEntries)
    → IsUnique es
    → canonical_entries es acc ≡ ok r
    → lookup j r ≡ or_else (lookup j es) (lookup j acc)
unfolding lookup canonical_entries or_else
lookup-canonical_entries j [] acc r unique h = ground (arith, h)
lookup-canonical_entries j ((i, p) ∷ es) acc r unique h =
    let rest =
      lookup-canonical_entries j es (insert i p acc) r unique.1
        (canonical_entries-cons i p es acc r h) in
    ground (arith, rest, lookup-insert j i p acc, unique.0)

pub IsUnique-canonical_entries :
    (es acc r : RegistryEntries) → IsUnique acc → canonical_entries es acc ≡ ok r → IsUnique r
unfolding canonical_entries
IsUnique-canonical_entries [] acc r unique h = subst⁻¹ IsUnique (ground (arith, h)) unique
IsUnique-canonical_entries ((i, p) ∷ es) acc r unique h =
    IsUnique-canonical_entries es (insert i p acc) r (IsUnique-insert i p acc unique)
      (canonical_entries-cons i p es acc r h)

lookup-insert_entry :
    (j : RepositoryId) (e : RepositoryId × RepositoryPath) (es : RegistryEntries)
    → lookup e.0 es ≡ none
    → lookup j (insert_entry e es) ≡ lookup j (e ∷ es)
unfolding lookup insert_entry
lookup-insert_entry j e [] h = refl
lookup-insert_entry j e (f ∷ es) h = ground (arith, lookup-insert_entry j e es)

pub lookup-sort_entries :
    (j : RepositoryId) (es : RegistryEntries)
    → IsUnique es
    → lookup j (sort_entries es) ≡ lookup j es
unfolding lookup sort_entries
lookup-sort_entries j [] h = refl
lookup-sort_entries j (e ∷ es) h =
    lookup-insert_entry j e (sort_entries es) (lookup-sort_entries e.0 es h.1 ∙ h.0)
    ∙ ap (λ o. if e.0 == j then some e.1 else o) (lookup-sort_entries j es h.1)

pub path_of-mappings :
    (j : RepositoryId) (es : RegistryEntries) → path_of j (mappings es) ≡ lookup j es
unfolding path_of mappings lookup
path_of-mappings j [] = refl
path_of-mappings j ((i, p) ∷ es) = ap (λ o. if i == j then some p else o) (path_of-mappings j es)

collect_entries-cons :
    (m : RegistryMapping) (ms : List RegistryMapping) (acc r : RegistryEntries)
    → collect_entries (m ∷ ms) acc ≡ ok r
    → (lookup m.repo_id acc ≡ none)
      × (collect_entries ms (insert m.repo_id m.repository_path acc) ≡ ok r)
unfolding collect_entries
collect_entries-cons m ms acc r h = elim (Result-cases (canonical_repository_id m.repo_id)) [
  | inl (j, is) ↦ elim (Result-cases (canonical_repository_path m.repository_path)) [
    | inl (q, are) ↦ ground (
      arith,
      h,
      is,
      are,
      canonical_repository_id-same m.repo_id j is,
      canonical_repository_path-same m.repository_path q are,
    )
    | inr (e, are) ↦ ground (arith, h, is, are)
  ]
  | inr (e, is) ↦ ground (arith, h, is)
]

pub lookup-collect_entries :
    (j : RepositoryId) (ms : List RegistryMapping) (acc r : RegistryEntries)
    → collect_entries ms acc ≡ ok r
    → lookup j r ≡ or_else (lookup j acc) (path_of j ms)
unfolding collect_entries path_of or_else
lookup-collect_entries j [] acc r h = ground (arith, h)
lookup-collect_entries j (m ∷ ms) acc r h =
    let step = collect_entries-cons m ms acc r h in
    let rest = lookup-collect_entries j ms (insert m.repo_id m.repository_path acc) r step.1 in
    ground (arith, rest, step.0, lookup-insert j m.repo_id m.repository_path acc)

pub IsUnique-collect_entries :
    (ms : List RegistryMapping) (acc r : RegistryEntries)
    → IsUnique acc
    → collect_entries ms acc ≡ ok r
    → IsUnique r
unfolding collect_entries
IsUnique-collect_entries [] acc r unique h = subst⁻¹ IsUnique (ground (arith, h)) unique
IsUnique-collect_entries (m ∷ ms) acc r unique h =
    IsUnique-collect_entries ms (insert m.repo_id m.repository_path acc) r
      (IsUnique-insert m.repo_id m.repository_path acc unique) (collect_entries-cons m ms acc r h).1

-- A path without the one that is taken away.
abbrev pub unless_path : RepositoryPath → Option RepositoryPath → Option RepositoryPath
unless_path p none = none
unless_path p (some q) = if q == p then none else some q

pub lookup-without_path :
    (j : RepositoryId) (p : RepositoryPath) (es : RegistryEntries)
    → IsUnique es
    → lookup j (without_path p es) ≡ unless_path p (lookup j es)
unfolding lookup without_path
lookup-without_path j p [] h = refl
lookup-without_path j p ((i, q) ∷ es) h = ground (arith, lookup-without_path j p es h.1, h.0)

pub IsUnique-without_path :
    (p : RepositoryPath) (es : RegistryEntries) → IsUnique es → IsUnique (without_path p es)
unfolding without_path
IsUnique-without_path p [] h = tt
IsUnique-without_path p ((i, q) ∷ es) h =
    elim (q == p) as (λ b. IsUnique (if b then without_path p es else (i, q) ∷ without_path p es)) [
      | true ↦ IsUnique-without_path p es h.1
      | false ↦
          (lookup-without_path i p es h.1 ∙ ap (unless_path p) h.0, IsUnique-without_path p es h.1)
    ]

pub lookup-pop :
    (j i : RepositoryId) (es : RegistryEntries)
    → IsUnique es
    → lookup j (pop i es) ≡ (if i == j then none else lookup j es)
unfolding lookup pop
lookup-pop j i [] h = ground arith
lookup-pop j i ((k, q) ∷ es) h = ground (arith, lookup-pop j i es h.1, h.0)

pub IsUnique-pop : (i : RepositoryId) (es : RegistryEntries) → IsUnique es → IsUnique (pop i es)
unfolding pop
IsUnique-pop i [] h = tt
IsUnique-pop i ((k, q) ∷ es) h =
    elim (k == i) as (λ b. IsUnique (if b then es else (k, q) ∷ pop i es)) [
      | true ↦ h.1
      | false ↦ (absent (i == k) (lookup-pop k i es h.1), IsUnique-pop i es h.1)
    ]
  where
    absent :
        (b : Bool)
        → lookup k (pop i es) ≡ (if b then none else lookup k es)
        → lookup k (pop i es) ≡ none
    absent true is = is
    absent false is = is ∙ h.0
