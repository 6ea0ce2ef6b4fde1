-- ===== src/Streaming.antt =====
-- The processing of observations (`src/abacus/services/streaming_inventory.py`): the evidence that
-- the worker holds in memory, the zone that it infers, and the rows that one observation writes.
pub mod Rows
pub mod Batches
pub mod Dicts
pub mod Recent
pub mod Zones
pub mod Attribution
pub mod Process
pub mod Items
pub mod Transition
pub mod Observe
pub mod Scene
pub mod Effect
pub mod Conservation
pub mod Kept
pub mod Reachable
pub mod Restored
pub mod Progress
pub mod Removal
pub mod Finalized
pub mod Tests
