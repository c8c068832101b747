-- ===== src/Zip.antt =====
-- src/patchharbor/zip_payloads.py, resource_policy.py and payload_modes.py: the limits on a ZIP archive,
-- and the reading of its members.
pub mod Policy
pub mod Modes
pub mod Members
pub mod Read
pub mod Limits
