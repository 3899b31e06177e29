-- ===== src/Shell.antt =====
-- The shell of kernel/src/shell.
pub mod Pager
pub mod Terminal
pub mod Editor
mod Tests
