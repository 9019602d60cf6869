-- ===== src/Positions.antt =====
-- src/position/position_manager.cpp: `Book` has the state and the operations, `Balance` and `Net` what
-- a fill does to the volumes, `Keys` when two instruments share a key.
pub mod Book
pub mod Keys
pub mod Balance
pub mod Fills
pub mod Net
mod Tests
