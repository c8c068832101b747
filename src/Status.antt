-- ===== src/Status.antt =====
-- src/patchharbor/errors.py and src/patchharbor/exit_status.py: the reasons of failures as numbers.
pub mod Codes
pub mod CodeLaws
