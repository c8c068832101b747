-- ===== src/Exchange.antt =====
-- src/patchharbor/exchange.py and application_exchange.py: the files of the Exchange directory, from their
-- bytes to the patch that is discovered and to what it writes to the ledger.
pub mod Artifact
pub mod Classify
pub mod Files
pub mod Listing
pub mod Scan
pub mod Reopen
pub mod ClassifyLaws
pub mod ReopenLaws
pub mod ScanLaws
pub mod ScanLedger
pub mod Select
pub mod Discover
pub mod Newest
pub mod DiscoverLaws
pub mod Discovered
pub mod Targets
pub mod Publish
pub mod Once
pub mod ScanComplete
pub mod Materialized
