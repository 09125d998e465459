-- ===== src/Malloc.antt =====
-- The allocator of malloclab: its heap, the headers of its blocks, and the tree of free blocks.
pub mod Memlib
pub mod Block
pub mod Tree
pub mod OldBlock
pub mod Heap
pub mod Alloc
pub mod Realloc
pub mod Driver
mod Tests
mod Runs
mod TreeTests
