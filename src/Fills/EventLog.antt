-- ===== src/Fills/EventLog.antt =====
-- The event log against the state: the view of a state, and the replay of events over it.
pub mod View
pub mod Exits
pub mod Bars
pub mod Runs
pub mod Commands
pub use Runs.*
pub use Commands.*
