-- ===== src/Fills/Commands.antt =====
-- The operations of the fill model that no bar causes: `cancel`, `freeze`, `flag_review`,
-- `apply_dividend` and `apply_validity_end`.
pub mod Reviews
pub mod Endings
