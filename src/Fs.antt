-- ===== src/Fs.antt =====
-- kernel/src/fs: the file system.
pub mod Fat32
