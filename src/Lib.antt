-- ===== src/Lib.antt =====
-- RFID inventory and replenishment platform: the verification of its core.
--
-- The program takes the readings of RFID tags in shops, keeps the state of each item, projects the
-- stock of each SKU in each zone, and from the stock and the active policies makes replenishment
-- tasks that staff carry out. A request reaches a service with a `Principal`; a service reads and
-- writes the rows of one PostgreSQL transaction and raises `ApiError`, which drops the transaction.
--
-- The parts, and the code that each models:
--   Prelude        shared lists, tests, table queries, sorting, pairs of rows, signed integers
--   Domain         identifiers, instants, `ApiError` (src/abacus/api/errors.py)
--   Floats         the operations on floats, which are parameters
--   Access         `Permission`, `ROLE_PERMISSIONS`, `RoleScope`, `Principal` (src/abacus/security.py)
--   Policy         rules, precedence, overlap and selection, and the life of a policy version:
--                  create, patch, clone, activate (src/abacus/services/replenishment.py)
--   Tasks          the state machine of a task and its compare-and-set: `patch_replenishment_task`,
--                  `list_store_tasks`, `replenishment_verification_status` (the same file)
--   Evaluation     `evaluate_replenishment`: from stock, rules and active tasks to new, enlarged and
--                  deferred tasks (the same file); the rows of its joined query are an argument
--   Connectivity   `lock_store_connectivity_for_receipt` (src/abacus/services/connectivity.py), and
--                  `effective_freshness`, `effective_presence_status`, `_update_connectivity`
--                  (src/abacus/services/streaming_inventory.py)
--   Streaming      `process_observation`: the recent reads of a tag and their checkpoints, the zone that
--                  they are evidence of, the state of the item, the transition in the outbox, the
--                  verification of tasks, and the batches (src/abacus/services/streaming_inventory.py)
--   Business       authoritative removals (src/abacus/services/business_events.py)
--   Jobs           the queue of durable jobs (src/abacus/services/jobs.py)
--   Throttle       `LoginThrottle` (src/abacus/security.py)
--   Inventory      `apply_inventory_deltas` and `rebuild_inventory_projection`
--                  (src/abacus/services/streaming_inventory.py)
-- The rows are those of src/abacus/models; an event is one of src/abacus/events.
--
-- Tasks, Policy and Evaluation ask Access for every authorization. An activation compares the rules
-- of a draft with the active rules of other policies; a selection raises where two rules rank the
-- same. Inventory reads the stored freshness of Connectivity.
-- Streaming updates Connectivity, moves the items that Inventory rebuilds from, writes the outbox
-- whose deltas Inventory applies, as Business does, and verifies the tasks of Tasks.
-- Evaluation uses the selection of Policy and the rows of Tasks and Inventory.
--
-- Correspondence. A table is a list of rows: a query selects from it, an UPDATE maps over it, an
-- INSERT adds to it. A service is a function from the tables and its arguments to a `Result` and the
-- tables after the transaction; where it raises, the tables are as before. `now` and fresh ids are
-- arguments. An argument `conflict` says whether the database refuses the commit with an
-- IntegrityError. Where a row is read without a lock, the table at the reading and the table at the
-- UPDATE are two arguments. An identifier or a string is a number, its rank in the order of strings;
-- an instant is a number of microseconds; a nullable column is an `Option`. `casefold`, `upper` and
-- SQL `upper` are parameters, and so are the type of floats and its comparison. Integers of the
-- source that a constraint keeps nonnegative are natural numbers, the others are `ℤ`. Python
-- integers do not overflow. Every loop of the modelled code runs over a finite collection and is
-- structural recursion: there is no fuel and there are no bounds.
--
-- The worker's recent state of the tags is a value that a call takes and gives back, kept even where the
-- transaction fails. A window of the login throttle has a serial number, which stands for the identity
-- of the object. The ids that `uuid5` gives and the normalized names of a login are arguments.
--
-- Not modelled: HTTP routing and serialization, JWT and password hashing, SQL itself, the row-level
-- security of the database, logging, the processes that poll, the command line and the scripts; the
-- ingestion of batches and of the catalog; the assembly of a principal from its
-- role rows; the paged listing of policies; onboarding and identity.
pub mod Access
pub mod Business
pub mod Connectivity
pub mod Domain
pub mod Evaluation
pub mod Floats
pub mod Inventory
pub mod Jobs
pub mod Policy
pub mod Prelude
pub mod Streaming
pub mod Tasks
pub mod Throttle
