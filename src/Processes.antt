-- ===== src/Processes.antt =====
-- Process managers, src/pytitect/processes.py.
pub mod Types
pub mod Store
pub mod Timers
pub mod Runtime
pub mod Cancelled
pub mod Size
pub mod Written
pub mod Versions
mod Tests
