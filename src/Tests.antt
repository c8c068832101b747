-- ===== src/Tests.antt =====
-- Runs of the definitions on concrete inputs, and the theorems applied to such inputs.
mod Ledger
mod Schedule
mod Registry
mod Fingerprint
mod Delta
mod Messages
mod Bundle
mod Status
mod Package
mod Zip
mod Exchange
mod Discover
mod History
mod Once
