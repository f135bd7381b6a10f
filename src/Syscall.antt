-- ===== src/Syscall.antt =====
-- syscall.c: fetching the arguments of a system call from the memory of the process.
pub mod Args
pub mod Within
mod Tests
