-- ===== src/Paths.antt =====
-- fs.c: path names.
pub mod Defs
pub mod Elements
mod Tests
