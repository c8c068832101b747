-- ===== src/Watcher.antt =====
-- src/patchharbor_watcher: the watcher's schedule of work and the records that it exchanges with its
-- worker.
pub mod Protocol
pub mod Messages
pub mod Contract
pub mod Outcome
pub mod Documents
pub mod Reading
pub mod Told
pub mod MessageLaws
pub mod Schedule
pub mod Loop
pub mod Roots
pub mod Soundness
pub mod Finish
pub mod Launch
pub mod Faults
pub mod Kept
pub mod Idle
pub mod Wake
