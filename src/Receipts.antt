-- ===== src/Receipts.antt =====
-- Operation receipts, src/pytitect/receipts.py.
pub mod Types
pub mod Store
pub mod Transitions
pub mod Calls
pub mod History
pub mod Reconciliation
pub mod Harness
mod Tests
