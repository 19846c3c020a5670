-- ===== src/Checkpoints.antt =====
-- Checkpoints, src/pytitect/checkpoints.py: the in-memory store, and the coordinators over a
-- consumer's store and transaction. A checkpoint is any value with an equality (there: bytes).
pub mod Store
pub mod Advance
pub mod Coordinators
pub mod Atomic
pub mod Deferred
pub mod InMemory
pub mod Harness
mod Tests
