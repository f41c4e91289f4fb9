-- ===== src/Tests.antt =====
-- Concrete inputs for the tests and the examples of the theorems: two short sessions, orders of
-- both directions and bars around their zones.
pub mod Calendars
pub mod Orders
pub mod Decisions
pub mod Candles
pub mod Alerts
pub mod Setups
pub mod Rules
pub mod Series
pub mod Windows
