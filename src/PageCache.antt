-- ===== src/PageCache.antt =====
-- The page cache of file.c.
pub mod Defs
pub mod Victims
mod Tests
