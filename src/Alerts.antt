-- ===== src/Alerts.antt =====
-- src/virtual_orders/alerts: the outbox of alerts and its delivery.
pub mod Outbox
pub mod Scan
pub mod Rules
pub mod Watchlist
