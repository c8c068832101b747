-- ===== src/ExchangeState.antt =====
-- src/patchharbor/exchange_state.py: the persistent ledger of Exchange files, one child for each of
-- its layers: the records, the JSON document, the file with its lock, and the transitions.
pub mod Record
pub mod Snapshot
pub mod Parse
pub mod Print
pub mod File
pub mod Merge
pub mod Attempt
pub mod Receipt
pub mod Sorted
pub mod RoundTrip
pub mod Holds
pub mod MergeLaws
pub mod ReviseLaws
pub mod AttemptLaws
pub mod FinishLaws
pub mod ReceiptLaws
pub mod Replay
pub mod Replies
