-- ===== src/Policy.antt =====
-- Replenishment policies (`src/abacus/services/replenishment.py`): the rules and their precedence,
-- and the life of a policy version.
pub mod Rules
pub mod Selection
pub mod Overlap
pub mod Store
pub mod Activation
pub mod Validation
pub mod Lifecycle
pub mod Tests
pub mod OneActive
pub mod Immutable
