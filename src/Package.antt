-- ===== src/Package.antt =====
-- src/patchharbor/patch_manifest.py, bundle_handoff.py, patch_package.py and parser.py: what a patch
-- package holds, and the roles of its members.
pub mod Manifest
pub mod ManifestLaws
pub mod Handoff
pub mod Resolve
pub mod Reserved
pub mod RoleLaws
pub mod Script
pub mod ScriptLines
pub mod ScriptLaws
pub mod ScriptWarnings
