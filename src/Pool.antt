-- ===== src/Pool.antt =====
-- keys.go
pub mod State
pub mod Slots
pub mod Select
pub mod Advance
pub mod Credits
pub mod Reset
pub mod Snapshot
pub mod Ops
pub mod Invariant
pub mod Disabled
pub mod Falls
pub mod Leases
pub mod Ledger
mod Tests
