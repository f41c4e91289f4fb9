-- ===== src/Fills/Invariant.antt =====
-- The well-formedness of an order's state, through the moves and rules of the fill model.
pub mod Shape
pub mod Moves
pub mod Exits
pub mod Entries
pub mod Steps
pub use Exits.*
pub use Entries.*
pub use Steps.*
pub use Moves.*
pub mod Creation
