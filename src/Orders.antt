-- ===== src/Orders.antt =====
-- src/order/order_manager.cpp: the order manager. `Book` has its state and its counter, `Methods` its
-- operations; the other modules prove what holds of them.
pub mod Book
pub mod Methods
pub mod Counting
pub mod Exact
pub mod History
pub mod Fills
pub mod Refs
mod Tests
