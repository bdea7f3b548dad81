-- ===== src/Slab.antt =====
-- The slab allocator of slab.c and slab.h.
pub mod Defs
pub mod Table
pub mod Objects
pub mod Pages
pub mod Search
pub mod Release
mod Tests
