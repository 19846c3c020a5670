-- ===== src/Lib.antt =====
-- A verification of pytitect, a Python library of reliability parts: stores and coordinators with
-- which a consumer makes effects idempotent, fenced, checkpointed and recoverable.
--
-- Each part has an in-memory store, which is the reference for the database stores, and most have a
-- coordinator or guard that works over any store behind a protocol. The development models the
-- in-memory stores whole and the coordinators over any store and transaction:
--   Maintenance.antt: src/pytitect/maintenance.py, and the selection that every `purge` makes;
--   Leases.antt: src/pytitect/leases.py, `InMemoryLeaseStore`; Leases/Commit.antt is `FencedCommit`
--   over any lock of the consumer's, Leases/Harness.antt the contract `LeaseStoreHarness`;
--   Idempotency.antt: src/pytitect/idempotency.py; Idempotency/Reserve, Settle and Purge are the
--   methods of `InMemoryIdempotencyStore`, Idempotency/Coordinator is `IdempotencyCoordinator`;
--   Inbox.antt: src/pytitect/inbox.py, `InMemoryInboxStore`, and its contract in Inbox/Harness;
--   Checkpoints.antt: src/pytitect/checkpoints.py; Checkpoints/Store is `InMemoryCheckpointStore`,
--   Checkpoints/Coordinators the atomic and the deferred coordinator;
--   Generations.antt: src/pytitect/sync/generations.py, the store and `GenerationGuard`;
--   Receipts.antt: src/pytitect/receipts.py; Receipts/Types is a receipt and its transitions,
--   Receipts/Store is `InMemoryReceiptStore` and `ReceiptReconciler`;
--   EventSourcing.antt: src/pytitect/event_sourcing.py, `InMemoryEventStore`;
--   Projections.antt: src/pytitect/projections.py; Projections/Store is `InMemoryProjectionStore`,
--   Projections/Runtime is `ProjectionRuntime` over the event store, and Projections/Interleaved puts
--   rounds of it between calls of the event store;
--   Outbox.antt: src/pytitect/outbox.py; Outbox/Store and Outbox/Maintain are `InMemoryOutboxStore`,
--   Outbox/Dispatch is `OneRoundDispatcher` over any store, Outbox/Types the retry policy;
--   Jobs.antt: src/pytitect/jobs.py; Jobs/Store and Jobs/Schedules are `InMemoryJobStore`, Jobs/Runner is
--   `JobRunner` over any store;
--   Processes.antt: src/pytitect/processes.py; Processes/Store and Processes/Timers are
--   `InMemoryProcessManagerStore`, Processes/Runtime the registry and the runtime on it;
--   Graph.antt: src/pytitect/sync/graph.py, `DatasetDependencyGraph`; Graph/Order is `_order`, `validate`
--   and `topological_order`, Graph/Walk and Graph/Closure are `closure`;
--   Transactions.antt: what a consumer's transaction does with a block under `atomic()`;
--   Prelude.antt: Python's exceptions, datetimes, dictionaries, `==` and sorting.
--
-- A method of a store is a function of its name from the arguments and the store to what it returns
-- or raises, and the store after it. Each method holds the store's lock, so that threads interleave
-- whole calls: `Call` lists the methods, `perform` runs one, and `perform_all` any sequence of them.
-- Dictionaries are lists of pairs in insertion order. Times are microseconds, as natural numbers;
-- the end of Python's calendar is not modelled. Integers are natural numbers, and the tests that
-- refuse booleans, negative numbers and wrong types are left out, since the types exclude them. A loop
-- over a collection is a recursion on it. The two `while` loops of the dependency graph run on fuel:
-- `_order` on one more than the selected datasets, of which each round takes one out, and `closure` on
-- the requested datasets and those of the graph, since a dataset is pushed once. Messages of exceptions
-- are dropped. The multiplier of the outbox's retry policy is a float, and what the policy computes with
-- it is a parameter that always answers: Python's power of a float may raise OverflowError.
-- The consumer's own code (transactions, locks, mutations, `uuid4`, clocks, result and metadata
-- types) is a parameter, with what its documentation promises as a hypothesis.
--
-- Not modelled: the database, web and broker adapters, cryptography and codecs of other libraries,
-- and the modules that have no file here.
pub mod Checkpoints
pub mod EventSourcing
pub mod Generations
pub mod Graph
pub mod Idempotency
pub mod Inbox
pub mod Jobs
pub mod Leases
pub mod Maintenance
pub mod Outbox
pub mod Prelude
pub mod Processes
pub mod Projections
pub mod Receipts
pub mod Transactions
