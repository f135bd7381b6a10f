-- ===== src/Grep.antt =====
-- The matcher of grep.c. A pattern and a text are the characters in front of their NULs.
pub mod Matcher
pub mod Language
pub mod Meaning
mod Tests
