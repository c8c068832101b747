-- ===== src/Package/RoleLaws.antt =====
-- src/patchharbor/patch_package.py: what a resolved package is made of.
use mathlib.Core.List.{append_assoc, append-nil}
use mathlib.Core.Path.{subst, subst⁻¹}
use mathlib.Core.Option.{or_else}
use patch_harbor.Base.{
  ℕ, String, ◌≡◌, refl, sym, ◌∙◌, Bool, false, Option, none, some, List, [], ◌∷◌, ◌++◌, arith,
  codes, if◌then◌else◌, ok, err, reraise, ◌==◌, Answers, Answers-all, Answers-bind, Answers-then,
  Answers-implies, Answers-reraise, Bool-cases, inl, inr,
}
use patch_harbor.Json.{Json}
use patch_harbor.Bundle.Member.{Text, text_eq, normalize_bundle_path}
use patch_harbor.Bundle.MemberLaws.{IsNormalized, normalize_bundle_path-IsNormalized}
use patch_harbor.Zip.Policy.{ResourcePolicy}
use patch_harbor.Package.Manifest.{
  unsafe_path, invalid_digest, missing_entrypoint, PatchManifest, parse_patch_manifest,
}
use patch_harbor.Package.ManifestLaws.{IsManifest, parse_patch_manifest-IsManifest}
use patch_harbor.Package.Handoff.{
  BundlePayload, metadata_of, without_metadata, split_by, split_patch_handoff, checked_handoff,
}
use patch_harbor.Package.Resolve.{
  ValidatedPatchPackage, validated_patch_package, manifest_payload, without_manifest, Roles,
  no_roles, roles_loop, required_entrypoint, resolve_patch_payloads, zip_payload_warnings,
}
use patch_harbor.Package.Reserved.{
  IsOrdinary, without_metadata-IsOrdinary, IsBeside, without_manifest-IsBeside,
}

-- The last payload at a path, and the payloads at other paths.
unfoldable pub last_at : Text → List BundlePayload → Option BundlePayload
last_at path [] = none
last_at path (p ∷ ps) = or_else (last_at path ps) (if p.relative_path == path then some p else none)

unfoldable pub others : Text → List BundlePayload → List BundlePayload
others path [] = []
others path (p ∷ ps) =
    let rest = others path ps in if p.relative_path == path then rest else p ∷ rest

roles_loop-entrypoint :
    (path : Text) (ps : List BundlePayload) (r : Roles)
    → (roles_loop path ps r).entrypoint ≡ or_else (last_at path ps) r.entrypoint
unfolding roles_loop last_at or_else
roles_loop-entrypoint path [] r = refl
roles_loop-entrypoint path (p ∷ ps) r = elim (Bool-cases (p.relative_path == path)) [
  | inl same ↦
      rw same (ground (arith, roles_loop-entrypoint path ps (record r { entrypoint = some p })))
  | inr other ↦ rw other (
      ground (
        arith,
        roles_loop-entrypoint path ps
            (record r { package_payloads = r.package_payloads ++ p ∷ [] }),
      ))
]

roles_loop-payloads :
    (path : Text) (ps : List BundlePayload) (r : Roles)
    → (roles_loop path ps r).package_payloads ≡ r.package_payloads ++ others path ps
unfolding roles_loop others
roles_loop-payloads path [] r = sym (append-nil r.package_payloads)
roles_loop-payloads path (p ∷ ps) r = elim (Bool-cases (p.relative_path == path)) [
  | inl same ↦
      rw (same, roles_loop) (roles_loop-payloads path ps (record r { entrypoint = some p }))
  | inr other ↦
      rw (other, roles_loop)
        (roles_loop-payloads path ps (record r { package_payloads = r.package_payloads ++ p ∷ [] })
          ∙ append_assoc r.package_payloads (p ∷ []) (others path ps))
]

-- With no member in the reserved directory nothing is taken away.
without_metadata-none : (ps : List BundlePayload) → metadata_of ps ≡ [] → ps ≡ without_metadata ps
unfolding metadata_of without_metadata
without_metadata-none [] h = refl
without_metadata-none (p ∷ ps) h = ground (arith, without_metadata-none ps, h)

-- The parts of a resolved package, from all the members that were read.
pub record IsResolved (all : List BundlePayload) (pkg : ValidatedPatchPackage) : Type 0 where
  pub manifest : IsManifest pkg.manifest
  pub entries : pkg.entries ≡ all
  pub ordinary : List BundlePayload
  pub unreserved : IsOrdinary all ordinary
  pub members : List BundlePayload
  pub beside_manifest : IsBeside ordinary members
  pub entrypoint : last_at (codes pkg.manifest.entrypoint) members ≡ some pkg.entrypoint
  pub payloads : pkg.payloads ≡ others (codes pkg.manifest.entrypoint) members

or_else-none : (o : Option BundlePayload) → or_else o none ≡ o
unfolding or_else
or_else-none none = refl
or_else-none (some p) = refl

normalized_entrypoint :
    (e : Text) → Answers (λ path. path ≡ e) (reraise unsafe_path (normalize_bundle_path e false))
normalized_entrypoint e =
    Answers-reraise (λ path. path ≡ e) unsafe_path (normalize_bundle_path e false)
      (Answers-implies (IsNormalized e false) (λ path. path ≡ e) (normalize_bundle_path e false)
        (normalize_bundle_path-IsNormalized e false) (λ path n. n.same))

required_entrypoint-some :
    (r : Roles) → Answers (λ e. r.entrypoint ≡ some e) (required_entrypoint r)
unfolding required_entrypoint
required_entrypoint-some r = from r.entrypoint
  where
    from :
        (o : Option BundlePayload)
        → Answers (λ e. o ≡ some e) (elim o [ none ↦ err missing_entrypoint | some p ↦ ok p ])
    from none = tt
    from (some p) = refl

validated_patch_package-same :
    (pkg : ValidatedPatchPackage)
    → Answers (λ q. pkg ≡ q) (reraise invalid_digest (validated_patch_package pkg))
unfolding validated_patch_package
validated_patch_package-same pkg =
    Answers-reraise (λ q. pkg ≡ q) invalid_digest (validated_patch_package pkg)
      (Answers-all (λ q. pkg ≡ q) (validated_patch_package pkg) (λ q is. ground (arith, is)))

-- The entry point and the payloads that the loop finds.
abbrev AreRoles : Text → List BundlePayload → Roles → Type 0
AreRoles path ps r = (r.entrypoint ≡ last_at path ps) × (r.package_payloads ≡ others path ps)

roles_loop-AreRoles :
    (e path : Text) (rest ps : List BundlePayload)
    → path ≡ e
    → rest ≡ ps
    → AreRoles e (without_manifest ps) (roles_loop path (without_manifest rest) no_roles)
roles_loop-AreRoles e path rest ps same kept =
    subst⁻¹ (λ x. AreRoles e (without_manifest ps) (roles_loop x (without_manifest rest) no_roles))
      same
      (subst⁻¹ (λ x. AreRoles e (without_manifest ps) (roles_loop e (without_manifest x) no_roles))
        kept
        (
          roles_loop-entrypoint e (without_manifest ps) no_roles ∙ or_else-none _,
          roles_loop-payloads e (without_manifest ps) no_roles,
        ))

module _ (decodes : List ℕ → Bool) (loads_handoff loads : List ℕ → Option Json) where
  split_patch_handoff-without_metadata :
      (all : List BundlePayload) (m : PatchManifest)
      → Answers (λ s. s.0 ≡ without_metadata all) (split_patch_handoff decodes loads_handoff all m)
  unfolding split_patch_handoff split_by
  split_patch_handoff-without_metadata all m = by_metadata (metadata_of all) refl
    where
      by_metadata :
          (found : List BundlePayload)
          → metadata_of all ≡ found
          → Answers (λ s. s.0 ≡ without_metadata all) (split_by decodes loads_handoff m all found)
      by_metadata [] none_found = without_metadata-none all none_found
      by_metadata (p ∷ ps) found =
          Answers-bind _ (checked_handoff decodes loads_handoff m (p ∷ ps)) _ (λ _. refl)

  -- A package that is resolved has a valid manifest and all the members as its entries. Its entry point
  -- is the last member at the path that the manifest names, and its payloads are the members at other
  -- paths, in their order, both among the members whose first segment is not PATCHHARBOR_META, in upper
  -- or lower case, without the first of them at the path patch.json.
  pub resolve_patch_payloads-IsResolved :
      (policy : ResourcePolicy) (digest : Option String) (size : Option ℕ)
      (all : List BundlePayload)
      → Answers
          (IsResolved all)
          (resolve_patch_payloads decodes loads_handoff loads policy digest size all)
  unfolding resolve_patch_payloads
  resolve_patch_payloads-IsResolved policy digest size all =
      Answers-bind (IsResolved all) (manifest_payload all) _ λ p.
        Answers-then IsManifest (IsResolved all) (parse_patch_manifest loads p.content) _
          (parse_patch_manifest-IsManifest loads p.content)
          λ m is_manifest.
            Answers-then (λ s. s.0 ≡ without_metadata all) (IsResolved all)
              (split_patch_handoff decodes loads_handoff all m) _
              (split_patch_handoff-without_metadata all m)
              λ s split.
                Answers-then (λ path. path ≡ codes m.entrypoint) (IsResolved all)
                  (reraise unsafe_path (normalize_bundle_path (codes m.entrypoint) false)) _
                  (normalized_entrypoint (codes m.entrypoint))
                  λ path same.
                    let roles = roles_loop path (without_manifest s.0) no_roles in
                    let are =
                      roles_loop-AreRoles (codes m.entrypoint) path s.0 (without_metadata all) same
                        split in
                    Answers-then (λ e. roles.entrypoint ≡ some e) (IsResolved all)
                      (required_entrypoint roles) _ (required_entrypoint-some roles)
                      λ e found.
                        let pkg : ValidatedPatchPackage = record {
                          manifest = m;
                          entrypoint = e;
                          payloads = roles.package_payloads;
                          warnings = zip_payload_warnings policy (without_manifest all);
                          handoff = s.1;
                          package_sha256 = digest;
                          package_size = size;
                          entries = all;
                        } in
                        Answers-implies (λ q. pkg ≡ q) (IsResolved all)
                          (reraise invalid_digest (validated_patch_package pkg))
                          (validated_patch_package-same pkg)
                          λ q is. subst (IsResolved all) is (record {
                            manifest = is_manifest;
                            entries = refl;
                            ordinary = without_metadata all;
                            unreserved = without_metadata-IsOrdinary all;
                            members = without_manifest (without_metadata all);
                            beside_manifest = without_manifest-IsBeside (without_metadata all);
                            entrypoint = sym are.0 ∙ found;
                            payloads = are.1;
                          })
