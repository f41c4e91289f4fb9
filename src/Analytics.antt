-- ===== src/Analytics.antt =====
-- src/virtual_orders/analytics: figures derived from minute bars.
pub mod Pressure
