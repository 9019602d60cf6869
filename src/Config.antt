-- ===== src/Config.antt =====
-- src/common/config.cpp: `Ini` has the sections and the operations on them, `Order` the order in which they are
-- written, `File` the text of the file; the other modules prove that a file is read back.
pub mod Ini
pub mod Order
pub mod File
pub mod Lines
pub mod RoundTrip
pub mod Tests
