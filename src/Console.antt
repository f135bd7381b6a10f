-- ===== src/Console.antt =====
-- console.c: the line discipline of the console's input.
pub mod Input
pub mod Lines
pub mod Typed
pub mod Typing
pub mod Reading
mod Tests
