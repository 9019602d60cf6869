-- ===== src/Bars.antt =====
-- src/engine/kline_manager.cpp: `State` has the bars and the calendar, `Update` what a tick does and
-- the queries, `Aggregate` and `Csv` the import, `Store` the file.
pub mod State
pub mod Update
pub mod Store
pub mod Reload
pub mod Reading
pub mod RoundTrip
pub mod Aggregate
pub mod Grouping
pub mod Merging
pub mod Volume
pub mod Ticks
pub mod Days
mod Tests
