-- ===== src/Outbox.antt =====
-- The outbox, src/pytitect/outbox.py.
pub mod Types
pub mod Store
pub mod Maintain
pub mod Calls
pub mod Claiming
pub mod Moves
pub mod Validity
pub mod Finality
pub mod Spent
pub mod Dispatch
pub mod Conclude
pub mod Loop
pub mod Round
pub mod Order
pub mod Delay
mod Tests
