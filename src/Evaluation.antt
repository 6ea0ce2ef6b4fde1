-- ===== src/Evaluation.antt =====
-- The evaluation of a store (`evaluate_replenishment` of `src/abacus/services/replenishment.py`).
pub mod Snapshots
pub mod Decide
pub mod Run
pub mod Decisions
pub mod Overlap
pub mod Kept
pub mod Tests
