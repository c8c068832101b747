-- ===== src/Fingerprint.antt =====
-- src/patchharbor/state_fingerprint.py: the bytes whose digest is the fingerprint of a repository's
-- state.
pub mod Stream
pub mod Frames
pub mod Injective
