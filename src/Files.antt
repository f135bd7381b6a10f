-- ===== src/Files.antt =====
-- file.c, and the file descriptors of sysfile.c.
pub mod Ftable
pub mod Totals
pub mod Counted
pub mod Descriptors
mod Tests
