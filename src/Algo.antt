-- ===== src/Algo.antt =====
-- src/order/algo_order_manager.cpp: `Methods` has the state and the operations, `Slices` and `History` the number of
-- children, `Parts`, `Rounds` and `Even` the volumes of the slices of a TWAP order.
pub mod Methods
pub mod Slices
pub mod History
mod Tests
mod Parts
pub mod Rounds
pub mod Even
