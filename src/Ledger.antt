-- ===== src/Ledger.antt =====
-- The update ledger of storage/data_meta.py.
pub mod Data
pub mod Scopes
pub mod Outcomes
pub mod Leases
pub mod Rows
pub mod Steps
pub mod Lift
pub mod Invariant
pub mod Claims
pub mod Interference
pub mod Settling
pub mod Watermark
pub mod LeaseLaws
pub mod Abandon
pub mod Locks
pub mod Refinement
mod Tests
