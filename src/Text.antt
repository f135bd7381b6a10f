-- ===== src/Text.antt =====
-- string.c and the string functions of ulib.c, over a memory of bytes.
pub mod Memory
pub mod Words
pub mod Strings
pub mod Moves
pub mod Copies
pub mod Compare
mod Tests
