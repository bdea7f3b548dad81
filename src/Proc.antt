-- ===== src/Proc.antt =====
-- proc.c: the process table.
pub mod Defs
pub mod Family
pub mod Wakeup
pub mod Exit
pub mod Changes
pub mod Scan
pub mod Wait
pub mod Steps
mod Tests
