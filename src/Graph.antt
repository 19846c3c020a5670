-- ===== src/Graph.antt =====
-- Dataset dependencies, src/pytitect/sync/graph.py.
pub mod Build
pub mod Order
pub mod Rounds
pub mod Ends
pub mod Answers
pub mod Walk
pub mod Closure
mod Tests
