-- ===== src/Risk.antt =====
-- src/risk/risk_manager.cpp: `State` has the parameters and the state, `Sessions` the trading
-- hours, `Window` the sliding windows, `Checks` the single checks of an order, `Methods` the
-- operations; the other modules prove what an accepted and a refused order mean.
pub mod State
pub mod Sessions
pub mod Window
pub mod Checks
pub mod Methods
pub mod Settings
pub mod Accepts
pub mod Limits
pub mod Refusals
mod Tests
