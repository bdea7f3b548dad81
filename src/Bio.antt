-- ===== src/Bio.antt =====
-- bio.c: the buffer cache.
pub mod Defs
pub mod Keys
pub mod Took
pub mod Get
pub mod Release
mod Tests
