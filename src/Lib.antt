-- ===== src/Lib.antt =====
-- SlotFS is a file system in user space for persistent memory (slotfs/). Everything lives in slots:
-- inodes, entries of directories, entries of files, and data pages, each type in a table of its own
-- with a bitmap of the slots in use. Directories and files are logs of entries, linked from slot to
-- slot; in DRAM there are indexes of them, a hash tree for directories and a radix tree for files.
-- In-place writes are protected by journals. Several threads, and processes through shared memory,
-- work on it at the same time.
--
-- The parts and their files:
-- Base: Boolean tests, lists, words of 64 bits, bits, memory as a function, going round an array.
-- Config: the constants of slotfs/config.h that the other parts use.
-- Bitmap: slotfs/bitops.h on byte-addressed memory. A bitmap is a function from byte index to byte;
--   Bitmap/Bits reads it as a set of positions, `bit`.
-- Slot: slotfs/slot.c. `do_slot_alloc` goes round the bitmaps of a slot type from the one of the
--   CPU on; `rotate` is this loop for single slots and for ranges. `map_num` is the length of the
--   list of bitmaps, `sched_getcpu` an argument.
-- RangeLock: slotfs/lock.c. An attempt to lock is `try_lock`, an unlock `range_unlock`, each one
--   step under `global_lock`; `Step` and `Reach` are the runs of threads that lock and unlock in any
--   order.
-- Journal: slotfs/journal.c, the pages for journals and the undo journal of in-place writes, with
--   the write of `inode_write_journal` of slotfs/inode.c between `journal_write` and `journal_commit`.
-- Arena: slotfs/arena.c, items of one size with a free list through their memory; `IsFreeList`
--   reads it as a list.
-- Rename: the end of `slotfs_rename` in slotfs/slotfs_func.c and the redo journal of slotfs/journal.c,
--   with the directories of Dir. The replay of the journal takes its directories from `iget`
--   of Vfs.
-- FileResize: `inode_resize`, `inode_extend` and `inode_shrink` of slotfs/inode.c, with the journal of
--   truncation of slotfs/journal.c; a loop that has not ended after the rounds given is `endless`.
-- Recovery: slotfs/recover.c, with the bitmaps of Bitmap, the chains of Dir and the queue of Queue.
--   `RcStep` is a step of one of the threads: a handler on one entry is one step.
--   Flush is `rc_flush`.
-- Queue: the queue of slotfs/recover.c, `Represents` says which elements it has.
-- Mkfs: the layout of persistent memory that slotfs/mkfs.c computes.
-- Runtime: slotfs/runtime.c, the table of open files.
-- BTree: slotfs/btree.c, the radix tree. A node's height is in its type; a position is the list of
--   branches from the root. `contents` is the map that a tree stands for.
-- Dir: the directories of slotfs/inode.c. `Linked` says what chain persistent memory has. It takes
--   slots from Slot by `slot_dirent_alloc` and gives them back by `do_slot_free`.
-- File: the removal of an entry from a file's log, slotfs/inode.c; it uses BTree for the blocks and
--   Slot for the entry's slot.
-- Vfs: slotfs/slot_vfs.c with the inodes' lookup and rebuilding of slotfs/inode.c. An inode pointer
--   is the inode, since a lookup changes none; `held` has the thread's locks. `resolve` follows the
--   components of a path without strings, locks and cache, and `Ends` compares a call with it.
-- FileData: reading, slotfs/inode.c. `file_byte` is the byte that a file has at an offset; `IsWhole`
--   says that each extent is in the tree for all its blocks.
-- FileLog: the adding of an entry to a file's log, slotfs/inode.c, in a new slot or a reused one. It
--   uses BTree for the blocks and Slot for the slots. The comparison of the ratio of floating-point
--   numbers with APPEND_THRESHOLD is an argument. A reused entry is in no leaf, its `ref` being 0.
-- FileWrite: writing, slotfs/inode.c, with FileData for the lookups, Slot for new pages, Journal for
--   small writes in place and FileLog for the entries. `stored_byte` is the byte that a file has, by
--   the map that its tree stands for.
-- Calls: slotfs/slotfs_func.c, the calls on descriptors. They use Runtime for the table, Vfs for the
--   inodes, which the cache has by their numbers, and FileData for reading. `IsCounted` says that an
--   inode's `ref` is the number of its descriptors.
-- Shm: slotfs/shm.c, the bitmaps that Slot works on, with `count_bits` of slotfs/slotfs.h. MAP_NUM
--   is an argument, 1 in slotfs/config.h.
--
-- Bounds and fuel. Sizes of bitmaps are below 2 ^ 31, since the scans return `int`. `rotate` has as
-- many rounds as there are bitmaps, the scans as many as positions, `fd_scan` FD_MAX, all as in the
-- source. `grow` has MAX_LEVELS rounds: the keys below `capacity 6`, 2 ^ 56, need 6 at most; beyond
-- them the product in `init_max_keys` would soon wrap, and file sizes stay far below.
-- `path_lookup` has 12 levels of calls: depths 0 to 11, where -ELOOP comes. `path_loop` has as many
-- rounds as the path has characters. `read_loop` has one round for each byte;
-- `data_loop` one for each block.
--
-- Names have 64 characters at most, MAX_NAME_LEN: a longer one is copied behind the end of its array,
-- and the model ends in `overflow` or `none` there. Blocks and pages are below 2 ^ 32 in an entry of a
-- file, whose fields have 32 bits.
--
-- Not modelled: inode_write_inplace, which slotfs/config.h leaves out, and inode_write_fake, a test
-- of bandwidth; slotfs/gather.c, whose thread is not started; the rest of mkfs and of the set-up of
-- shared memory; the system calls that create, write or remove, and the lookups at the start of
-- slotfs_rename; cache-line flushes and fences, which do not change what memory holds; the locks
-- round the operations, taken as making each of them one step; the kernel's list and rbtree, of
-- which `rb_insert_color` and `rb_erase` are arguments; the interception of C library calls, and the
-- other file systems in the repository.
pub mod Base
pub mod Arena
pub mod BTree
pub mod Calls
pub mod Bitmap
pub mod Config
pub mod Dir
pub mod File
pub mod FileData
pub mod FileLog
pub mod FileResize
pub mod FileWrite
pub mod Journal
pub mod Runtime
pub mod Shm
pub mod Slot
pub mod Vfs
pub mod Mkfs
pub mod Queue
pub mod RangeLock
pub mod Recovery
pub mod Rename
