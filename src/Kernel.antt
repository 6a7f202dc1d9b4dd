-- ===== src/Kernel.antt =====
-- The kernel of xv6, the operating system that the later laboratories extend.
pub mod Log
pub mod Pipe
pub mod Proc
pub mod Kalloc
pub mod FileTable
pub mod Strings
pub mod Spinlock
pub mod Sleeplock
pub mod Fs
