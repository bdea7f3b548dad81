-- ===== src/FileTable.antt =====
-- file.c and file.h: the table of open files.
pub mod Defs
pub mod References
mod Tests
