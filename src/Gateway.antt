-- ===== src/Gateway.antt =====
-- src/gateway/dual_md_gateway.cpp and src/gateway/dual_trade_gateway.cpp: a primary gateway and its
-- backup.
pub mod Market
pub mod Trade
pub mod Failover
mod Tests
