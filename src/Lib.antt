-- ===== src/Lib.antt =====
-- Verification of three programs: the job-control shell shlab/tsh.c, the file system fslab/fs.c on
-- the block device fslab/disk.c, and the allocator malloclab/mm.c on the simulated heap
-- malloclab/memlib.c.
--
-- The shell (Shell). Shell/Job.antt has the job table and its searches (`clearjob`, `initjobs`,
-- `maxjid`, `fgpid`, `getjobpid`, `getjobjid`, `pid2jid`); Shell/State.antt the global state, with
-- what the shell prints and which signals it sends as a log of effects, and the operations that
-- change the table (`addjob`, `deletejob`, `listjobs`); Shell/Parse.antt `parseline`;
-- Shell/Command.antt `eval`, `builtin_cmd` and `do_bgfg`; Shell/Loop.antt the event loop of `main`,
-- as a step on events: a signal, the reports of `waitpid`, or characters on the standard input.
-- `eval` calls the parser, the built-in commands and `addjob`; the loop calls `eval`, `fgpid` and
-- `deletejob`. A pointer to a job is the index of its slot. `sscanf` with `%d` is the parameter
-- `scan_int`; what `posix_spawn`, `waitpid` and `read` return comes with the event. An access
-- through a null pointer or outside an array is the outcome `crashed`; for `parseline` it is `none`.
-- Numbers such as a process id are natural numbers without a bound.
--
-- The file system (Fs). Bytes.antt has byte buffers and the little-endian numbers in them;
-- Fs/Disk.antt fslab/disk.c, the block layer and the layout of the disk; Fs/Bitmap.antt the bitmaps;
-- Fs/Alloc.antt allocation of blocks and inodes; Fs/Inode.antt the inode table and `mkfs`;
-- Fs/Dir.antt directories; Fs/Names.antt `resolve_path` and `resolve_parent_path`; Fs/File.antt
-- `fs_read`, `fs_write` and `fs_truncate`; Fs/Ops.antt the other operations. The disk is passed
-- through: an operation takes it and returns it in a result `Out`, where `failed` is a `longjmp` to
-- `jmp_error` with an error number, and `faulted` an access outside an array or a read of a variable
-- that was never set. What `time(NULL)` returns is the argument `now`, and what the static array
-- `entries` holds before a call is the argument `scratch`. A search in a directory answers with a
-- `Lookup`, where `overrun` is a name or a directory that is too large for its array. Block ids are
-- natural numbers; the loops stay below 65,536, which `disk_read` and `disk_write` test.
--
-- The allocator (Malloc). Malloc/Memlib.antt has malloclab/memlib.c; Malloc/Block.antt the headers of
-- the blocks in malloclab/mm.c, packed into fields of 23 bits and single bits; Malloc/OldBlock.antt
-- what malloclab/block.h does in another way for the same headers; Malloc/Tree.antt the red-black
-- tree of free blocks, whose links lie in the headers, with the search for a best fit,
-- Malloc/Tree/Insert.antt rotation and insertion, and Malloc/Tree/Delete.antt deletion. For the proofs,
-- Malloc/Tree/Links.antt has the links as functions, Malloc/Tree/Nodes.antt the memory that holds them,
-- and Malloc/Tree/Focus.antt a tree and what lies above it, tied by such links.
-- Malloc/Heap.antt has the neighbours of a block, the boundary tags (`set_block_is_free`,
-- `init_block`), `extend` and `mm_init`; Malloc/Alloc.antt `mm_malloc` and `mm_free`, and
-- Malloc/Realloc.antt `mm_realloc`. These take and return a `Heap`, which is the state of memlib.c and
-- the bytes of the memory. `mm_free` and `mm_realloc` call the tree to take blocks out and put them in,
-- and `init_block` to write the headers of what they merge and split.
-- Malloc/Driver.antt has the check of malloclab/mdriver.c: the list of the allocated payloads
-- (`add_range`, `remove_range`) and `eval_mm_valid`, which replays a trace on the four functions of
-- malloclab/mm.h; `mm_package` gives it those of malloclab/mm.c. A `char` that the driver reads is
-- signed, as on x86.
-- A pointer is its offset from `mem_heap_lo()`, which is a multiple of 8, and memory is a function from
-- an offset to a byte; the null pointer is `none`. `size_t` wraps at 2^64. `assert` is defined as
-- nothing in malloclab/mm.c, so it is left out.
-- `rbroot` is a pointer of 8 bytes at offset 0; `lo` is the address that it is relative to. The
-- operations of the tree take fuel, and `none` is its end, also for `mm_malloc`, `mm_free` and
-- `mm_realloc`, which pass their fuel to the tree; `rb_lower_bound` and `rb_insert` need one round more
-- than the tree is high, and `rb_insert_fixup` and `rb_delete_fixup` one more than there are levels
-- above the node.
--
-- Fuel. `parseline` and the path loops run on one round more than there are characters, and
-- FOR_DATA_BLOCKS on as many as there are bytes: every round but the last takes a character, or a
-- byte. All other loops of the shell and the file system count.
--
-- Not modelled: option parsing, start-up and the calls of the system in shlab/tsh.c; the helper
-- programs of shlab; the table of FUSE operations and `main` in fslab/fs.c; the code
-- under DEBUG in malloclab/mm.c, the older copy of its tree in malloclab/rbtree.h, `mem_deinit`
-- and `mem_pagesize`, and the timers and the tests of malloclab, with all of the driver but its check
-- of validity.
pub mod Common
pub mod Bytes
pub mod Shell
pub mod Fs
pub mod Malloc
