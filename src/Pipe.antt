-- ===== src/Pipe.antt =====
-- pipe.c: the ring of a pipe, and writing and reading between two sleeps.
pub mod Ring
pub mod Contents
pub mod Order
mod Tests
