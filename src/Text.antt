-- ===== src/Text.antt =====
-- kernel/src/lib/lib.cpp: the byte and string routines that the kernel brings along.
pub mod Bytes
pub mod Strings
pub mod Wildcard
pub mod OwnedString
pub mod Print
mod Tests
