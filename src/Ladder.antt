-- ===== src/Ladder.antt =====
-- matching_engine/order_ladder.H: the order book of one symbol and its matching.
pub mod State
pub mod Levels
pub mod Match
pub mod Operations
pub mod Book
pub mod Walk
pub mod Sweep
pub mod Refine
pub mod Rest
pub mod Strike
pub mod Market
pub mod Crossing
pub mod Delete
pub mod Enter
pub mod Amend
pub mod Session
pub mod Trading
pub mod Unchecked
mod Tests
