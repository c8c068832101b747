-- ===== src/Package/Resolve.antt =====
-- src/patchharbor/patch_package.py: `resolve_patch_payloads`, the roles of a package's members.
use patch_harbor.Base.{
  ℕ, String, ◌&&◌, Bool, false, Option, none, some, List, [], ◌∷◌, ◌++◌, ◌=ℕ◌, length, all, codes,
  if◌then◌else◌, Result, ok, err, ◌>>=◌, ◌>>◌, require, reraise, ◌==◌,
}
use patch_harbor.Models.{ValueError, value_error, is_hex}
use patch_harbor.Json.{Json}
use patch_harbor.Bundle.Member.{Text, text_eq, normalize_bundle_path}
use patch_harbor.Zip.Policy.{ResourcePolicy, large_content_warning}
use patch_harbor.Package.Manifest.{
  PackageError, invalid_digest, missing_manifest, missing_entrypoint, unsafe_path, PatchManifest,
  patch_manifest_name, parse_patch_manifest,
}
use patch_harbor.Package.Handoff.{BundlePayload, BundleHandoff, split_patch_handoff}

-- A warning names the member and its size.
pub record ValidatedPatchPackage : Type 0 where
  pub manifest : PatchManifest
  pub entrypoint : BundlePayload
  pub payloads : List BundlePayload
  pub warnings : List (Text × ℕ)
  pub handoff : Option BundleHandoff
  pub package_sha256 : Option String
  pub package_size : Option ℕ
  pub entries : List BundlePayload

-- `ValidatedPatchPackage.__post_init__`
unfoldable pub validated_patch_package :
    ValidatedPatchPackage → Result ValueError ValidatedPatchPackage
unfolding is_hex
validated_patch_package p = elim p.package_sha256 [
  | none ↦ ok p
  | some digest ↦ do
    require (length (codes digest) =ℕ 64 && all is_hex (codes digest)) value_error
    ok p
]

abbrev pub manifest_path : Text
manifest_path = codes patch_manifest_name

-- The first payload with the name of the manifest
unfoldable pub find_manifest : List BundlePayload → Option BundlePayload
unfolding text_eq
find_manifest [] = none
find_manifest (p ∷ ps) = if p.relative_path == manifest_path then some p else find_manifest ps

-- The payloads without that one object.
unfoldable pub without_manifest : List BundlePayload → List BundlePayload
unfolding text_eq
without_manifest [] = []
without_manifest (p ∷ ps) = if p.relative_path == manifest_path then ps else p ∷ without_manifest ps

-- The entry point, the last one of that path, and the other payloads
pub record Roles : Type 0 where
  pub entrypoint : Option BundlePayload
  pub package_payloads : List BundlePayload

-- The loop over the payloads, on those behind `payload is manifest_payload`.
unfoldable pub roles_loop : Text → List BundlePayload → Roles → Roles
unfolding text_eq
roles_loop path [] r = r
roles_loop path (p ∷ ps) r = roles_loop path ps (
    if p.relative_path == path
    then record r { entrypoint = some p }
    else record r { package_payloads = r.package_payloads ++ p ∷ [] })

-- `zip_payload_warnings`
unfoldable pub zip_payload_warnings : ResourcePolicy → List BundlePayload → List (Text × ℕ)
unfolding large_content_warning
zip_payload_warnings policy [] = []
zip_payload_warnings policy (p ∷ ps) =
    let rest = zip_payload_warnings policy ps in
    elim (large_content_warning policy (length p.content)) [
      | none ↦ rest
      | some size ↦ (p.relative_path, size) ∷ rest
    ]

unfoldable pub manifest_payload : List BundlePayload → Result PackageError BundlePayload
unfolding find_manifest
manifest_payload payloads = elim (find_manifest payloads) [
  | none ↦ err missing_manifest
  | some p ↦ ok p
]

unfoldable pub required_entrypoint : Roles → Result PackageError BundlePayload
required_entrypoint r = elim r.entrypoint [ none ↦ err missing_entrypoint | some p ↦ ok p ]

abbrev pub no_roles : Roles
no_roles = record { entrypoint = none; package_payloads = [] }

-- The decoders of the handoff and of the manifest.
module _ (decodes : List ℕ → Bool) (loads_handoff loads : List ℕ → Option Json) where
  -- `resolve_patch_payloads`
  unfoldable pub resolve_patch_payloads :
      ResourcePolicy
      → Option String
      → Option ℕ
      → List BundlePayload
      → Result PackageError ValidatedPatchPackage
  unfolding manifest_payload parse_patch_manifest split_patch_handoff normalize_bundle_path
      roles_loop without_manifest required_entrypoint zip_payload_warnings validated_patch_package
  resolve_patch_payloads policy package_sha256 package_size all_payloads = do
    p ← manifest_payload all_payloads
    manifest ← parse_patch_manifest loads p.content
    (payloads, handoff) ← split_patch_handoff decodes loads_handoff all_payloads manifest
    path ← reraise unsafe_path (normalize_bundle_path (codes manifest.entrypoint) false)
    let roles = roles_loop path (without_manifest payloads) no_roles
    entrypoint ← required_entrypoint roles
    reraise invalid_digest (
        validated_patch_package (record {
          manifest = manifest;
          entrypoint = entrypoint;
          payloads = roles.package_payloads;
          warnings = zip_payload_warnings policy (without_manifest all_payloads);
          handoff = handoff;
          package_sha256 = package_sha256;
          package_size = package_size;
          entries = all_payloads;
        }))
