-- ===== src/Lib.antt =====
-- A verification library for the user-level thread package of this repository, for the bitmaps, the
-- inodes and the data of its file system, for the queue, the thread pool and the cache of its web server, and for its word count.
--
-- The program. threads/thread.c is a package of user-level threads over getcontext and setcontext:
-- 1024 thread control blocks, a ready queue, a list of unused ids, wait queues, and on top of these
-- locks and condition variables. threads/interrupt.c blocks and unblocks the timer's signal, and its
-- handler calls `thread_yield`, so that threads are preempted. fs/bitmap.c keeps arrays of bits, from
-- which the file system in fs/ allocates its inodes and blocks; it does not use the threads. The device
-- is a file of blocks: the super block, the free maps of inodes and blocks, 128 blocks of inodes, and
-- the data. An inode has ten direct blocks and an indirect block; fs/super.c takes and releases blocks
-- and inodes and writes the maps through, fs/inode.c keeps the inodes in use in a hash table, and
-- fs/read_write.c reads, writes and frees the data behind an inode. The data of a directory are its
-- entries, which fs/dir.c reads one after the other.
-- webserver/server_thread.c is a web server over POSIX threads: the main thread puts connections into
-- a bounded queue, a pool of workers takes them out, and the files that the workers send are kept in a
-- hash table, whose LRU list says which ones are evicted for a new file. warmup/wc.c counts the words
-- of a text.
--
-- The files.
--   * Prelude: Boolean tests, lists, integers and the counting of ids over the native numbers.
--   * Threads/State: `struct thread`, `struct lock` and the globals, as records; the outcome of a call.
--   * Threads/Queues: pushThreadToWait, popHeadThreadWait, addToTail, removeNextReadyThread,
--     removeFromReadyQueue, addToHeadId, removeFromHead, isIdNotUsed. A linked list is the list of its
--     ids from head to tail, and the result -1 is `none`.
--   * Threads/Store: wait_queue_create, wait_queue_destroy, thread_wakeup, freeTCBStacks,
--     dealloc_thread_specific_wait_queue. A pointer is a number, and a freed object is `none`.
--   * Threads/Schedule: thread_exit, threadResponsibilities, thread_yield.
--   * Threads/Create: thread_init, thread_create, thread_kill.
--   * Threads/Sync: thread_sleep, thread_wait, and the functions lock_* and cv_*.
--   * Threads/Resume: thread_stub, what a thread does when setcontext has given it the processor, and
--     interrupt_handler.
--   * Threads/Ensures, Threads/Places: rules for statements about a call's outcome, and where an id is.
--   * Threads/System: the process as a step relation, its invariant and the proof of it.
--   * Threads/Switch, Threads/Waking, Threads/Order: what the single operations do.
--   * Threads/Faults and Threads/Switch/Stale: defects.
--   * Bitmap/Words, Bitmap/Store: the operators on bytes, `struct bitmap` and the functions bitmap_*.
--   * Bitmap/Bits, Bitmap/Marks: the bits of a result, the abstract view of a bitmap, and validity.
--   * Bitmap/Create, Bitmap/Single, Bitmap/Alloc: what the functions do to valid bitmaps.
--   * Bitmap/Wrap: the sizes at which the rounding up wraps around.
--   * Web/State, Web/Lists: `struct file_data`, `struct cache`, `struct sched_queue`, the globals of the
--     cache, and the lists of files: pushBack, removeLRUFile, getCachedFile, removeFileToBeMovedToBack,
--     add_to_queue, isInFlight, remove_from_queue.
--   * Web/Cache: hash_value, insert_to_cache, remove_from_cache, init_cache, and the functions cache_*.
--   * Web/Consistent, Web/Refine: the invariant of the cache, and its specification on a list of files.
--   * Web/Matches, Chains, Reads, Evict, Insert, Add: searches by name, the chains, and the steps of an
--     insertion; Web/Policy, Lookup, Limits: what the functions do.
--   * Web/Request: the functions request_* of webserver/request.c.
--   * Web/Handler: do_server_request, by its sections between two mutexes. Web/Unrelated, Serve, Answers,
--     Requests: what it answers; Web/Races: a race in it.
--   * Web/Destroy, Web/Teardown: destroy_cache.
--   * Web/Connections, Web/Pool: pushConnection, popConnection, server_init, server_request, server_exit
--     and do_server_t_request.
--   * Web/Serving: the runs of the server as a step relation; its children have the invariant, and what
--     happens at the exit.
--   * Warmup/Words: insert_into_wc and wc_init of warmup/wc.c; Warmup/Splits: the words of a text;
--     Warmup/Counts, Table: what is counted.
--   * Fs/State: the structures of fs/super.h and fs/inode.h, and the outcome of a call.
--   * Fs/Blocks, Super, Inode, Data, Freeing, Table, Opening: the functions of fs/block.c, fs/super.c,
--     fs/inode.c and fs/read_write.c; fs/inode.c is in Inode, with the allocation for an inode, and in
--     Table; of fs/read_write.c, Freeing has testfs_free_blocks; of fs/super.c, Opening has the making,
--     opening and closing of a file system.
--   * Fs/Space, Slots, Logical, Placing, Entries, Allocating: the blocks of a file as the slots of one map,
--     how they are read, and how allocation changes the map. Fs/Writing, Bytes, Files, Reading: a file as its bytes.
--   * Fs/Words, Stored, Syncing: structures of words in a block, and the inodes on the device.
--   * Fs/SuperWords, Maps, Persistence, Reopening, Formatting: the super block and the free maps on the
--     device, and a file system that is opened.
--   * Fs/Directory: testfs_next_dirent, testfs_find_dirent and testfs_dir_name_to_inode_nr of fs/dir.c;
--     Fs/Names, Listing: a look-up in the entries of a directory.
--   * Fs/Removal: a defect.
--   * Examples: concrete states, with a use of each theorem.
--
-- How the code corresponds. A call is a function from the state of the process to its outcome: it
-- returns, it leaves through setcontext (`switched`), it ends the process, an assert fails, or it
-- reads outside an array or through a freed pointer (`undefined`). A saved context is the point of the
-- code at which it continues, with the locals that are read there and the calls of the package that
-- stand on the stack (`Frame`); `resume` runs the current thread from there. The two branches of
-- thread_yield that take a thread off the ready queue are the same code, and are one definition here
-- (`yield_to`).
--
-- In the web server, a section of code under the mutex `mp` is one step of the run, and so is a wait's
-- release of it; a signal wakes any thread that waits. A file is behind a pointer, a number, and
-- reading it when it is freed is `undefined`; a node of a list or of a chain is not: it is freed where
-- it is unlinked, or never. A wait for a file that is being sent ends the call with the outcome
-- `waits`. The doubled searches and insertions of insert_to_cache, for an empty chain and another one,
-- are one definition each.
--
-- In the file system, a block is its bytes by their offset, and the device is the map of its blocks with
-- their number: reading behind the end is EXIT (`exits`), and writing there extends the file. A pointer
-- to an inode in memory is its number, and the hash table, with its chains from fs/list.h, is the list
-- of the inodes in it. The functions of fs/read_write.c take such an inode as a value and return it.
-- An error code is a constructor; other negative numbers, of blocks or in an inode, are not represented.
--
-- Bounds and fuel. In threads/, only the loops of lock_acquire and isIdNotUsed are on fuel: the first
-- can go on for ever, one round suffices where the lock is free, and a round in which the caller goes
-- to sleep ends the call; the second does not end on most lists. The step relation allows any fuel.
-- Thread ids are `int`, and no arithmetic is done on them. The loops of fs/bitmap.c are on the number
-- of rounds that the code makes. Its numbers are `u_int32_t`, with the wrap-around written out, and
-- its words are bytes; a valid bitmap has at most 2^32 - 8 bits, so that DIVROUNDUP does not wrap
-- around. The loop of evictions has the length of the LRU list as its fuel, since a round takes a file
-- out of it, and insert_to_cache calls itself once: it has the fuel 2, and both suffice in a
-- consistent cache. The hash is a `long` of 64 bits that wraps around; a sum of sizes from 2^31 on, an
-- overflow of `int`, is undefined, and a consistent cache has a size below 2^30.
--
-- A sound file stands on a device with the layout of testfs_make_super_block, whose first data block is
-- 146, and a map of 2^20 blocks; each of its 2058 blocks and its indirect block, where it has them, is in
-- use and in only one place. The loops of testfs_free_blocks are on the number of their rounds.
-- The loops over the entries of a directory are on fuel, one round more than the directory has bytes, and
-- an entry has nine bytes at least; without fuel they would end as `faults`.
--
-- Not modelled. The registers and stacks behind a context; printing; thread_id, which changes nothing;
-- addToHead and printList, which nothing calls. The timer's signal is taken while a thread is in its
-- own code, between two calls of the package. malloc for a thread's stack is an argument of
-- thread_create, and the two of bitmap_create are its arguments; the package asserts that most of its
-- other allocations succeed, and they do here.
-- Of the web server, the reading of a client's lines and of the disk are arguments of
-- do_server_request, and the texts of its replies are left out; the processing that only takes time,
-- print_cache, which prints, and add_to_queue_cpy, which nothing calls, have no definition. The
-- sections of do_server_request are run one after the other, but for one race, and server_request is
-- the branch with worker threads; without them it calls do_server_request. A node among the files
-- being sent is not tracked once it is unlinked. Memory that is never freed is not tracked. The
-- server's other files, with file sets, sockets and clients, are not modelled. The counts of words
-- have no limit of `int`, which those of a text with an `int` size do not reach, strtok is a split
-- at its delimiters, and wc_output and wc_destroy, which
-- print and free the table, are left out. Of the file
-- system, the calls of malloc and of the opening of the device succeed or are arguments; the
-- changes of directories and the commands, which read arguments and print, are not part of this library,
-- nor are the other warm-up programs.
pub mod Prelude
pub mod Threads
pub mod Bitmap
pub mod Web
pub mod Warmup
pub mod Fs
pub mod Examples
