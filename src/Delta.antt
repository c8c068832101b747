-- ===== src/Delta.antt =====
-- src/patchharbor/snapshot_budget.py and src/patchharbor/snapshot_binary.py: binary deltas, decoded
-- within a budget.
pub mod Budget
pub mod Binary
pub mod Grammar
pub mod BinaryLaws
pub mod Applied
pub mod Loop
pub mod Integer
