-- ===== src/Log.antt =====
-- myserver's logging: the fixed buffer of a log line and the stream that formats into it.
pub mod FixedBuffer
pub mod Stream
pub mod Logger
mod Tests
