-- ===== src/Idempotency.antt =====
-- `InMemoryIdempotencyStore` of src/pytitect/idempotency.py. Each method holds the lock from end
-- to end, so threads interleave whole calls. `uuid.uuid4().hex` is the argument `fresh`.
pub mod Types
pub mod Reserve
pub mod Settle
pub mod Purge
pub mod Calls
pub mod Linked
pub mod Validity
pub mod Preservation
pub mod Tokens
pub mod Replay
pub mod View
pub mod Coordinator
pub mod Lifecycle
pub mod Harness
mod Tests
