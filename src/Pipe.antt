-- ===== src/Pipe.antt =====
-- pipe.c: the ring of bytes between a writer and a reader.
pub mod Defs
pub mod Fifo
pub mod Calls
pub mod Stream
mod Tests
