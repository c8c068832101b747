-- ===== src/Bundle.antt =====
-- src/patchharbor/bundle_paths.py: the paths of the members of an archive.
pub mod Member
pub mod Names
pub mod NameLaws
pub mod Tree
pub mod TreeLaws
pub mod MemberLaws
