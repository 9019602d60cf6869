-- ===== src/Codec.antt =====
-- src/common/binary_io.h, src/common/crc32.h, src/common/wal_writer.h and src/common/wal_reader.h. A
-- stream or a file is the list of its bytes.
pub mod Varint
pub mod Crc
pub mod Log
pub mod RoundTrip
pub mod Streams
pub mod Linear
pub mod Replay
pub mod Entries
pub mod Recovery
mod Tests
