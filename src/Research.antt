-- ===== src/Research.antt =====
-- src/virtual_orders/research: candles, and the candlestick patterns that are found in them.
pub mod Candle
pub mod Geometry
pub mod Patterns
pub mod Detect
pub mod Causal
pub mod Ends
pub mod Labels
pub mod Indicators
pub mod Structure
pub mod Swings
pub mod Trend
pub mod Context
pub mod Levels
pub mod Features
pub mod Scoring
pub mod Setups
pub mod Promotion
pub mod Splits
pub mod Timeframes
