-- ===== src/Kalloc.antt =====
-- kalloc.c: the free pages.
pub mod Free
pub mod Pages
mod Tests
