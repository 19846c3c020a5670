-- ===== src/EventSourcing.antt =====
-- Event streams, src/pytitect/event_sourcing.py.
pub mod Store
pub mod Append
pub mod Commits
pub mod Positions
pub mod Pages
mod Tests
