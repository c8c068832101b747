-- ===== src/Registry.antt =====
-- src/patchharbor/registry.py: the central registry of repositories, its document and its file.
pub mod Mapping
pub mod Entries
pub mod MappingLaws
pub mod Document
pub mod File
pub mod Rollback
