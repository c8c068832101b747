-- ===== src/Package/Reserved.antt =====
-- src/patchharbor/bundle_handoff.py and patch_package.py: which members of a package are those of the
-- reserved metadata directory, and what is left of the members without them and without the manifest.
use patch_harbor.Base.{
  ℕ, ◌≡◌, ◌≢◌, refl, ap, ◌∙◌, ◌⊎◌, inl, inr, Bool, true, false, not, List, [], ◌∷◌, ◌++◌, arith,
  ◌=ℕ◌, codes, all, map, Bool-cases, ◌==◌, same-key, equal_test,
}
use patch_harbor.Bundle.Member.{Text, text_eq, lower_char, add_to_first, segments}
use patch_harbor.Package.Handoff.{
  BundlePayload, first_segment, is_metadata, without_metadata, handoff_directory,
}
use patch_harbor.Package.Resolve.{without_manifest, manifest_path}

abbrev has_no_slash : Text → Bool
has_no_slash = all (λ c. not (c =ℕ b'/'))

-- A path of the directory PATCHHARBOR_META, in any spelling of upper and lower case: its first segment
-- is that name.
pub record IsReserved (path : Text) : Type 0 where
  pub directory : Text
  pub rest : Text
  pub split : path ≡ directory ++ rest
  pub named : map lower_char directory ≡ codes "patchharbor_meta"
  pub ends : (rest ≡ []) ⊎ ((inner : Text) × (rest ≡ b'/' ∷ inner))

-- The first segment and what follows it.
record IsHead (path head : Text) : Type 0 where
  rest : Text
  split : path ≡ head ++ rest
  ends : (rest ≡ []) ⊎ ((inner : Text) × (rest ≡ b'/' ∷ inner))

first_segment-add :
    (c : ℕ) (ss : List Text) → first_segment (add_to_first c ss) ≡ c ∷ first_segment ss
unfolding first_segment
first_segment-add c [] = refl
first_segment-add c (s ∷ ss) = refl

first_segment-IsHead : (path : Text) → IsHead path (first_segment (segments path))
unfolding segments first_segment
first_segment-IsHead [] = record { rest = []; split = refl; ends = inl refl }
first_segment-IsHead (c ∷ cs) =
    let tail = first_segment-IsHead cs in
    elim (Bool-cases (c =ℕ b'/')) [
      | inl slash ↦
          rw (slash, segments)
            (record { rest = c ∷ cs; split = refl; ends = inr (cs, ground (arith, slash)) })
      | inr other ↦
          rw (other, segments, first_segment-add c (segments cs))
            (record { rest = tail.rest; split = ap (λ x. c ∷ x) tail.split; ends = tail.ends })
    ]

first_segment-split :
    (directory rest : Text)
    → has_no_slash directory ≡ true
    → (rest ≡ []) ⊎ ((inner : Text) × (rest ≡ b'/' ∷ inner))
    → first_segment (segments (directory ++ rest)) ≡ directory
unfolding segments first_segment
first_segment-split [] rest h (inl e) = ap (λ r. first_segment (segments r)) e
first_segment-split [] rest h (inr (inner, e)) = ap (λ r. first_segment (segments r)) e
first_segment-split (c ∷ cs) rest h ends =
    let parts : ((c =ℕ b'/') ≡ false) × (has_no_slash cs ≡ true) = ground (arith, h) in
    rw (parts.0, first_segment-add c (segments (cs ++ rest)))
      (ap (λ x. c ∷ x) (first_segment-split cs rest parts.1 ends))

has_no_slash-lower : (t : Text) → has_no_slash (map lower_char t) ≡ true → has_no_slash t ≡ true
has_no_slash-lower [] h = refl
has_no_slash-lower (c ∷ cs) h = ground (arith, h, has_no_slash-lower cs)

pub is_metadata-IsReserved : (p : BundlePayload) → is_metadata p ≡ true → IsReserved p.relative_path
unfolding is_metadata
is_metadata-IsReserved p h =
    let head = first_segment-IsHead p.relative_path in
    record {
      directory = first_segment (segments p.relative_path);
      rest = head.rest;
      split = head.split;
      named =
          same-key (map lower_char (first_segment (segments p.relative_path)))
            (map lower_char handoff_directory) h;
      ends = head.ends;
    }

pub IsReserved-is_metadata : (p : BundlePayload) → IsReserved p.relative_path → is_metadata p ≡ true
unfolding is_metadata
IsReserved-is_metadata p h =
    let plain = has_no_slash-lower h.directory (ap has_no_slash h.named) in
    equal_test (map lower_char (first_segment (segments p.relative_path)))
      (map lower_char handoff_directory)
      (ap (λ t. map lower_char (first_segment (segments t))) h.split
        ∙ ap (map lower_char) (first_segment-split h.directory h.rest plain h.ends)
        ∙ h.named)

-- The second list is the first without the members of the reserved directory.
pub data IsOrdinary : List BundlePayload → List BundlePayload → Type 0 where
  no_member : IsOrdinary [] []
  reserved :
      {p : BundlePayload} {ps qs : List BundlePayload}
      → IsReserved p.relative_path
      → IsOrdinary ps qs
      → IsOrdinary (p ∷ ps) qs
  ordinary :
      {p : BundlePayload} {ps qs : List BundlePayload}
      → ¬ IsReserved p.relative_path
      → IsOrdinary ps qs
      → IsOrdinary (p ∷ ps) (p ∷ qs)

pub without_metadata-IsOrdinary : (ps : List BundlePayload) → IsOrdinary ps (without_metadata ps)
unfolding without_metadata
without_metadata-IsOrdinary [] = no_member
without_metadata-IsOrdinary (p ∷ ps) = elim (Bool-cases (is_metadata p)) [
  | inl is ↦
      rw (is, without_metadata)
        (reserved (is_metadata-IsReserved p is) (without_metadata-IsOrdinary ps))
  | inr other ↦
      rw (other, without_metadata)
        (ordinary (λ h. ground (arith, other, IsReserved-is_metadata p h))
          (without_metadata-IsOrdinary ps))
]

-- The second list is the first without its first member at the path of the manifest.
pub data IsBeside : List BundlePayload → List BundlePayload → Type 0 where
  no_manifest : IsBeside [] []
  manifest :
      {p : BundlePayload} {ps : List BundlePayload}
      → p.relative_path ≡ codes "patch.json"
      → IsBeside (p ∷ ps) ps
  member :
      {p : BundlePayload} {ps qs : List BundlePayload}
      → p.relative_path ≢ codes "patch.json"
      → IsBeside ps qs
      → IsBeside (p ∷ ps) (p ∷ qs)

pub without_manifest-IsBeside : (ps : List BundlePayload) → IsBeside ps (without_manifest ps)
unfolding without_manifest
without_manifest-IsBeside [] = no_manifest
without_manifest-IsBeside (p ∷ ps) = elim (Bool-cases (p.relative_path == manifest_path)) [
  | inl is ↦ rw (is, without_manifest) (manifest (same-key p.relative_path manifest_path is))
  | inr other ↦
      rw (other, without_manifest)
        (member (λ h. ground (arith, other, equal_test p.relative_path manifest_path h))
          (without_manifest-IsBeside ps))
]
