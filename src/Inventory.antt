-- ===== src/Inventory.antt =====
-- The inventory projection of `src/abacus/services/streaming_inventory.py`: the quantity of each SKU
-- in each zone, kept from deltas and rebuilt from the state of the items.
pub mod Groups
pub mod Projection
pub mod Quantities
pub mod Balance
pub mod Replay
pub mod Rebuild
pub mod Counts
pub mod Tests
