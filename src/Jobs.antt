-- ===== src/Jobs.antt =====
-- Jobs and their schedules, src/pytitect/jobs.py.
pub mod Types
pub mod Store
pub mod Schedules
pub mod Retry
pub mod Runner
pub mod Decisions
pub mod Successes
pub mod Bounds
mod Tests
