-- ===== src/Core.antt =====
-- The kernel's core: processes, the scheduler and messages.
pub mod Process
pub mod Scheduler
pub mod Ipc
pub mod Syscall
mod Tests
