-- ===== src/Kernel.antt =====
-- kernel/src: parts of the kernel that keep their state in memory.
pub mod Pipe
pub mod Scheduler
pub mod Ipc
pub mod Handle
pub mod Heap
pub mod Pmm
pub mod Pty
pub mod Vfs
