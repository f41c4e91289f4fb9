-- ===== src/Domain.antt =====
-- src/core/domain/models.py: the immutable domain types, and the checks of their constructors.
-- Timestamps are UTC instants in microseconds (`Calendar`): `_normalize_utc` has run.
pub mod Values
pub mod Signal
pub mod Order
pub mod Validation
pub mod Position
