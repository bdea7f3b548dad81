-- ===== src/Bitmap.antt =====
-- fs.c: the allocation of disk blocks.
pub mod Defs
pub mod Bits
pub mod Blocks
mod Tests
