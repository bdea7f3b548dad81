-- ===== src/Lib.antt =====
-- A teaching kernel in C: an xv6 with a buddy allocator and slab caches for its memory, a second
-- disk on an NVMe device, and a page cache for files. The modules model these parts of it.
--
-- * Buddy models buddy.c and buddy.h. The record Buddy is the file's static state: the lists of free
--   chunks by order, the hash table of the sizes given out and the lock. alloc_pages and free_pages are
--   dmalloc and dfree for more than half a page, buddy_init is buddyInit after bfreerange, whose
--   arithmetic Buddy.Layout has. An address is a natural number, a linked list is a List, and a null
--   pointer that the C would follow is the result stop fault, a call of panic stop panic.
-- * Log models log.c, once for its two copies (log and nvmelog). A Device is a disk with the buffers
--   above it and the number of writes that reach it before power fails; commit, write_log, write_head,
--   install_trans and recover_from_log run on it. Log.Ops has begin_op, end_op and log_write and the
--   system of calls that use them.
-- * Pipe models pipe.c: pipewrite and piperead up to the points where they sleep, and pipeclose. Its
--   counters wrap at 2 ^ 32. Pipe.Stream has one writer and one reader in every order of their steps.
-- * Bitmap models balloc, bfree and bzero of fs.c, with the bits of a byte written out. balloc has one
--   round for each block of the bitmap and one for the last test.
-- * File models bmap, readi, writei, itrunc and iupdate of fs.c on the same disk. A slot is one of the
--   141 places of a block number of an inode. Each round of the loops of readi and writei moves a byte
--   or more, so as many rounds as bytes are enough. The log is not part of this disk: log_write is taken to
--   have room, as it has in a transaction of no more blocks than begin_op reserves.
-- * FileTable models filealloc, filedup and fileclose of file.c on the table of open files. What a close
--   does after it released the lock is its answer. FileTable.References has the calls in every order.
-- * Inodes models the inode cache of fs.c: iget, idup, ilock, iput and ialloc, each as one step, on the
--   array icache.inode and the two devices. Counts of references do not wrap, as each is held by an
--   entry of a table.
-- * Paths models skipelem of fs.c on lists of bytes, and the names that the loop of namex gets from it. A
--   path has as many rounds as bytes, and one more.
-- * Slab models slab.c: a page of equal objects with its free list, the list of pages of each cache, and
--   the hash table from pages to their nodes. find_object is the search of slab_system, to the point
--   where it has a page or needs a new one; it has a round for each page. free_slab_obj, dfree and the
--   functions between them call each other; a call for each node of the hash table and one more is
--   enough. calc_slab_idx has 29 doublings, which reach 2 ^ 31.
-- * Strings models string.c on a memory of bytes, whose addresses do not wrap. rep stosb and rep stosl
--   are as the processor's manual has them. strlen has fuel, as a memory may have no zero byte.
-- * PageCache models the replacement policies of file.c: the victim that lru_policy, FIFO_policy and
--   clock_policy choose. The endless loop of clock_policy has one round more than there are pages as its
--   fuel, and each round but the last takes a mark away.
-- * Bio models bget, brelse and binit of bio.c. The list of buffers, most recently used first, is a List;
--   a buffer's address is its id.
-- * Proc models the process table of proc.c: the critical sections on ptable.lock, each as one step.
--
-- Parts that call each other do so through arguments: the log takes the device below it, and a step of
-- the process table takes the answer of kalloc and of copyuvm.
--
-- Loops are recursion on the rounds that are left. merge_order has one round for each list from its
-- order up, as the array has no more; cal_order has 20, after which the C int is 0 for ever; alloc_loop one for each order up to max_order, as its test says;
-- the loops of log.c one for each block of the log; those of proc.c one for each entry of the table.
-- pipewrite recurs on the bytes to write. So none of them can stop early.
--
-- Not modelled: assembly and boot code, the drivers of devices (ide, uart, console, kbd, lapic, ioapic,
-- mp, pci), and the programs that run on the kernel, since their effect is on hardware or on the
-- screen; and of the kernel itself the directories of the file system and the inodes that a path names,
-- how the slab caches get a new page, the tables of the page cache, the NVMe queues and the page tables.
pub mod Base
pub mod Bio
pub mod Bitmap
pub mod Buddy
pub mod File
pub mod FileTable
pub mod Inodes
pub mod Log
pub mod PageCache
pub mod Paths
pub mod Pipe
pub mod Proc
pub mod Slab
pub mod Strings
