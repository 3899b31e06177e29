-- ===== src/Lib.antt =====
-- pocky is a small 64-bit kernel in C++. This library models the core of it and proves what makes
-- the parts correct.
--
-- Memory. Memory.Physical is kernel/src/memory/physical_memory.cpp: a bitmap with a bit for each
-- frame of 4096 bytes, a counter of the clear bits, `initialize`, `allocate_frame` and
-- `free_frame`. Memory.Heap is kernel/src/memory/heap.cpp: a chain of blocks, searched first fit,
-- split and merged, which asks Memory.Physical for frames. A state is a record of the class's
-- fields; `allocate` and `free` take both states and return both. Memory.Virtual is
-- kernel/src/memory/virtual_memory.cpp: page table entries as words of 64 bits in a memory of
-- words (Memory.Virtual.Entry), the walk over four levels, `map_page`, `unmap_page`,
-- `get_physical_address` and the tables that `initialize` builds. The theorems are about tables
-- that form a tree (Memory.Virtual.Tree), in frames of Memory.Physical; a walk that meets a huge
-- page is outside of them.
--
-- Text and Vector. Text.Bytes, Text.Strings and Text.Wildcard are the routines of
-- kernel/src/lib/lib.cpp over a memory that is a byte for each address, Text.Print is the number
-- printing of kernel/src/lib/printf.cpp, Text.OwnedString is the String class of
-- kernel/src/lib/string.hpp, whose operations take another object as their argument than the one
-- they change, and Vector is kernel/src/lib/vector.hpp, with the bytes that it asks `operator new`
-- for. In the other modules a Vector is a list, and removal from the middle is the shifting loop
-- of Vector.
--
-- Core. Core.Process is the process table, the chain of processes and the switch of
-- kernel/src/core/process.cpp; a `Process*` is a number that the table maps to the object, so that
-- all holders of a pointer see a write. Core.Scheduler is kernel/src/core/scheduler.cpp: a run
-- queue for each processor, the two policies, ticks (Core.Scheduler.Schedule) and load balancing.
-- Core.Ipc is the message queue of kernel/src/core/ipc.cpp, which makes the receiver wait through
-- the scheduler and adds it again when a message comes; Core.Ipc.Manager is the table of queues
-- and the attachment of shared memory. Core.Syscall is kernel/src/core/syscall.cpp, the calls that
-- use these parts.
--
-- Shell. Shell.Pager is kernel/src/shell/pager.cpp and Shell.Terminal is
-- kernel/src/shell/terminal.cpp with the cells that kernel/src/shell/vga.cpp writes. Shell.Editor
-- is kernel/src/shell/editor.cpp: the text, its cursor and the searches over it (Lines), the keys
-- of the three modes (Modes), opening, saving and closing (File) and the motions (Motion); the
-- calls of the file system are the interface `Files`, and a write out of the buffer's bounds is
-- the outcome `none`. Drivers.Keyboard is kernel/src/drivers/keyboard.cpp.
--
-- Fs. Fs.Fat32 is kernel/src/fs/fat32.cpp: the parameters of the volume and the allocation table
-- (Fs.Fat32), reading and writing the clusters of a file (Content) and the stack of directories
-- (Stack). The drive of kernel/src/drivers/ata.cpp works by port input and output and is the
-- interface `Drive`, whose laws say that a number stands for the sector of its lowest 28 bits,
-- which are what the driver sends, and that a write that succeeds is read back and leaves the
-- sectors of other numbers.
--
-- Common has the shared names: Boolean tests, words, lists over native numbers, bits and loops.
-- Words of 64 bits keep their wrap-around (`% 2 ^ 64`).
--
-- Loops are structural recursion over what they walk, or a count of rounds. Where the source has
-- no such bound, the recursion is on fuel and the outcome `none` says that it ran out: the round
-- robin loop (a round for each entry of the queue is enough), the loop of load_balance (more
-- rounds than the longest queue has entries), split_text (more than twice the length of the text)
-- the loops over strings (one round more than characters) and readFile and writeFile (one round
-- more than bytes). The theorem that a loop returns names its bound.
--
-- Not modelled: loading page tables into the processor, what stands on them (creating and ending
-- processes, shared memory regions, fork and execve), directory entries and the operations of the
-- file system by name, the disk driver, the ELF loader, the drawing of the editor, the shell's
-- commands, and the hardware. The current processor, the clock and the interrupt flag are
-- arguments. A processor that schedules away from a waiting receiver gives up control, so what
-- follows in receive_message is a step of its own.
pub mod Common
pub mod Memory
pub mod Text
pub mod Vector
pub mod Core
pub mod Shell
pub mod Drivers
pub mod Fs
