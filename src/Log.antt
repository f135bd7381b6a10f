-- ===== src/Log.antt =====
-- log.c: the write-ahead log, its commit, and recovery after a crash.
pub mod Device
pub mod Commit
pub mod Header
pub mod Phases
pub mod Crash
pub mod Recovery
pub mod Ops
pub mod Space
pub mod Full
mod Tests
