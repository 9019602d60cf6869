-- ===== src/Engine.antt =====
-- src/engine/trading_engine.cpp: the path of an order through the managers, and of the reports and
-- fills back to them.
pub mod State
pub mod Cancelling
pub mod Sending
pub mod Handling
pub mod Reconnect
pub mod Fills
pub mod Closing
pub mod Waiting
pub mod Stuck
pub mod Sends
mod Tests
