-- ===== src/Kernel/Fs.antt =====
-- xv6/fs.c: the file system above the log. A block is its bytes by offset, as the buffer cache shows
-- it; a change that log_write logs is a change of the block.
pub mod Disk
pub mod Inode
mod Tests
