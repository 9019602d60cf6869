-- ===== src/Conditional.antt =====
-- src/order/conditional_order_manager.cpp: `State` has the orders and the tables kept beside them,
-- `Bounds` the filter on prices, `Methods` the operations, `Ticks` the three phases of
-- `check_tick`; the other modules prove what the filter and the retries do.
pub mod State
pub mod Bounds
pub mod Methods
pub mod Ticks
pub mod Filter
pub mod Groups
pub mod Adding
mod Tests
