-- ===== src/Strings.antt =====
-- string.c: the kernel's routines on bytes and strings.
pub mod Defs
pub mod Moves
pub mod Names
mod Tests
