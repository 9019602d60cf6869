-- ===== src/Paper.antt =====
-- src/engine/paper_trading.cpp: `Methods` has the simulated orders, `Effects` what they do to the account.
pub mod Methods
pub mod Effects
mod Tests
