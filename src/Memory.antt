-- ===== src/Memory.antt =====
-- kernel/src/memory: the frame allocator, the heap that stands on it, and the page tables.
pub mod Physical
pub mod Heap
pub mod Virtual
