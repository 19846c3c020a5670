-- ===== src/Projections.antt =====
-- Projections and their rebuilds, src/pytitect/projections.py, over the event store.
pub mod Store
pub mod Runtime
pub mod Prefix
pub mod Fold
pub mod Interleaved
pub mod Rebuild
mod Tests
