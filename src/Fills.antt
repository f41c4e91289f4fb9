-- ===== src/Fills.antt =====
-- src/core/fills/v1: the frozen fill model v1.
pub mod Mirror
pub mod Moves
pub mod Exit
pub mod Entry
pub mod Engine
pub mod Invariant
pub mod Replay
pub mod EventLog
pub mod Commands
pub mod Creation
