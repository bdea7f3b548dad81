-- ===== src/Log.antt =====
-- log.c: the write-ahead log of each file system device.
pub mod Defs
pub mod Phases
pub mod Install
pub mod Recovery
pub mod Crash
pub mod Ops
pub mod Reserve
mod Tests
