-- ===== src/Fs.antt =====
-- fslab/fs.c and fslab/disk.c, a file system on a virtual disk.
pub mod Disk
pub mod Bitmap
pub mod Alloc
pub mod Inode
pub mod Dir
pub mod Names
pub mod File
pub mod Ops
mod Examples
mod Tests
mod FileTests
