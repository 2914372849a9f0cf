-- ===== src/Evidence/Failure.antt =====
-- The errors that the evidence engine throws, from packages/evidence/src.
pub data Failure : Type 0 where
  -- `RangeError`, a ratio over zero
  zero_denominator : Failure
  -- `RangeError`, `floorDiv` by zero
  division_by_zero : Failure
  -- `RangeError`, a basis-point result that a number does not represent exactly
  out_of_range : Failure
  -- `Error`, two snapshots of different vaults
  cross_vault : Failure
  -- `Error`, a draft that lacks a value
  incomplete : Failure
  -- `ZodError`, a value that a published schema refuses
  schema_rejected : Failure
  -- `TypeError`, a null that was asserted to be a value
  type_error : Failure
