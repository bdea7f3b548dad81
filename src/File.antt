-- ===== src/File.antt =====
-- fs.c: the contents of files.
pub mod Words
pub mod Defs
pub mod Room
pub mod Slots
pub mod Bmap
pub mod Contents
pub mod Read
pub mod Write
pub mod Logged
pub mod Changes
pub mod Writei
pub mod Trip
mod Tests
pub mod Freeing
pub mod Truncate
