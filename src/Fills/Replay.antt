-- ===== src/Fills/Replay.antt =====
-- How `step` and `run_bars` treat bars that come again, in another order or in several batches.
pub mod Redelivery
pub mod Window
pub mod Order
pub use Window.*
pub use Redelivery.*
pub use Order.*
