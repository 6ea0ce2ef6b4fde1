-- ===== src/Floats.antt =====
-- The operations on floats that the services use, and `median` of Python's `statistics`. A literal
-- of the source is `decimal n k`, which is n / 10 ^ k. A duration is a number of microseconds.
use rfid_inventory_replenish.Prelude.{ℕ, Bool, List, if◌then◌else◌}

pub record FloatOps (F : Type 0) : Type 0 where
  pub lt_float : F → F → Bool
  pub eq_float : F → F → Bool
  pub add : F → F → F
  pub sub : F → F → F
  pub mul : F → F → F
  pub div : F → F → F
  pub of_int : ℕ → F
  pub decimal : ℕ → ℕ → F
  pub total_seconds : ℕ → F
  pub round4 : F → F
  pub median : List F → F

-- `min(a, b)` and `max(a, b)`
abbrev pub min_float : {F : Type 0} → FloatOps F → F → F → F
min_float ops a b = if ops.lt_float b a then b else a

abbrev pub max_float : {F : Type 0} → FloatOps F → F → F → F
max_float ops a b = if ops.lt_float a b then b else a
