-- ===== src/Buddy.antt =====
-- buddy.c: the buddy allocator of page blocks and the hash table of the sizes handed out.
pub mod Defs
pub mod Merge
pub mod Init
pub mod Cover
pub mod Region
pub mod Merging
pub mod Valid
pub mod Alloc
pub mod Free
pub mod Orders
pub mod Layout
pub mod Start
pub mod Tests
