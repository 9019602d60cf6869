-- ===== src/Close.antt =====
-- src/order/close_manager.cpp: `State` has the tasks, `Methods` the operations, each the sections that
-- it runs under the lock; `Sections` proves what every order of such sections keeps.
pub mod State
pub mod Methods
pub mod Recovery
pub mod Sections
pub mod Runs
pub mod Sends
mod Tests
