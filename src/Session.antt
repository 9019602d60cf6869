-- ===== src/Session.antt =====
-- src/engine/session_manager.cpp: `Monitor` has the trading sessions and the watch over the ticks, `Hours`
-- compares the trading hours with those of the risk manager, `Watch` follows the session over time.
pub mod Monitor
pub mod Hours
pub mod Watch
mod Tests
