-- ===== src/Inodes.antt =====
-- fs.c: the cache of inodes and the inodes of a device.
pub mod Defs
pub mod Cache
pub mod Stored
mod Tests
