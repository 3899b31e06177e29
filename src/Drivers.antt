-- ===== src/Drivers.antt =====
-- The drivers of kernel/src/drivers.
pub mod Keyboard
mod Tests
