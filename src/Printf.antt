-- ===== src/Printf.antt =====
-- printf.c, and cprintf of console.c: formatted output.
pub mod Format
pub mod Numbers
pub mod Directives
mod Tests
