-- ===== src/Spinlock.antt =====
-- spinlock.c: the spin locks of the kernel, and its nested disabling of interrupts.
pub mod Lock
pub mod Cli
pub mod Holders
pub mod Moves
pub mod Steps
pub mod Exclusion
mod Tests
