-- ===== src/Lib.antt =====
-- Programs of the course repository (cs3650), modelled function by function.
--
-- Base      names shared by all parts: lists over the native numbers, Boolean tests, text, and the
--           type Outcome of a C function's outcome: a value, a failed assertion, or a fault that C
--           leaves undefined (an access out of bounds, a read of a cell that was never written, a
--           null pointer, signed overflow). `out_of_fuel` is the model's own fault.
-- Nush      the shell of chal1/challenge01:
--   Svec    svec.c, the vector of strings: svec_get, svec_put, svec_push_back, svec_swap,
--           svec_reverse, svec_index_of, sub_svec, svec_clone. `data` is a list of cells, each
--           unwritten, NULL or a string.
--   Tokens  tokens.c: is_op, add_op, add_token, tokenize. Its vector comes from Svec.
--   Astree  astree.c: make_cmd, make_op, parse. Its token vector is what tokenize returns.
--   Implement  implement.c: execute and its handlers, and the loop of nush.c, over Astree and
--           Tokens. A process is the tree of its system calls (Proc), and a function that returns an
--           `int` takes what follows it.
--     Kernel    what a process may do: the calls return any value that they can, a program ends
--               with any status, and the events of a child come in any order with those of its
--               parent, except that `waitpid` waits. Reap is about that wait.
--     Meaning   the reference: statuses and events of a tree, without processes.
--     Splits, Children, Executed, Able, Possible, Script, Output    the handlers against it.
-- Nufs      the file system of hw10/starter-fshw. Its image is a function from addresses to bytes;
--           an `int` is four bytes, the lowest first, and a pointer is an address. `none` is a
--           result of -1.
--   Memory     the accesses of C: bytes, words, memset.
--   Bitmap     bitmap.c: bitmap_get, bitmap_set.
--   Pages      pages.c: alloc_page, free_page, and the pages that pages_init reserves.
--   Inode      inode.c: alloc_inode, free_inode, inode_get_pnum, pages_owned, grow_inode,
--              shrink_inode. A loop that the source leaves by `return` is a chain of Flow.
--   Slist      slist.c: s_cons, s_split, s_concat, s_copy, s_reverse.
--   Directory  directory.c: directory_init, directory_lookup, directory_put, directory_delete,
--              directory_list, over Inode and Pages.
--   Storage    storage.c, and tree_lookup of directory.c, over Directory and Inode: storage_init,
--              storage_stat, storage_read, storage_write, storage_truncate, storage_mknod,
--              storage_list, storage_unlink, storage_link, storage_rename. `dirname` and `basename`
--              are parameters, and an `rv` that was not set is a fault.
-- Quicksort hw03/starter-hw03/quicksort.c: swap, partition, quicksort, on a list of signed numbers.
-- Tsort     hw07/hw07-assignment: the vector of float_vec.c, and in_range of tsort.c. `float` and its
--           comparison are parameters; a cell that was not written is `none`, and a long that no `int`
--           holds is a fault where it becomes one.
--   Barrier   barrier.c: make_barrier, and barrier_wait as the steps (Move, Step) of any number of
--             threads. A state has the counters, the two locks and the place of each thread.
--     Tally, Invariant, Progress    counting threads by their places, and what follows.
--   Sample     sample_sort of tsort.c, with sort_worker in two halves around the barrier: a run is an
--              order of the first halves and one of the second. `qsort` and `random` are parameters.
--     Ordered, Overwrite, Cells    orders and counts, memcpy, cells of lists.
--     Buckets, Vectors            the sorted ranges, vectors that hold numbers.
--     Threads, Halves, Medians, Sorts         any order of the threads, the halves, the medians, the sort.
-- Hmalloc   hw08/hw08-assignment/hmalloc.c: insert_fl_cell, search_size, split_chunk, coalesce,
--           hmalloc, hfree and the statistics. Memory is a function from addresses to cells, and `mmap` a
--           parameter. The abstract heap is the list of the free chunks.
--   Chunks     the lists of chunks, and the bytes that they cover.
--   Linked     the doubly linked cells of such a list; Place, Merge and Unlink change them.
--   Insert, Coalesce, Search, Take    the functions of the source against the list.
--   Free, Alloc, RoundTrip            hfree, hmalloc, and the two together.
-- OptMalloc chal2/starter-ch02/opt_malloc.c: make_fl_cell, pop, insert_fl_cell, pull_from_above,
--           redistribute, get_fl_index, xmalloc, xfree, xrealloc. Memory is a function from addresses to
--           bytes, `mmap` a parameter. The abstract heap is the free chunks of each list and the blocks in
--           use, which cover each byte at most once.
--   Words, Blocks, Chains    the words in memory, the blocks and the bytes they cover, the free lists.
--   Lists, Refill, Redistribute, Index    pop and insert_fl_cell, pull_from_above, redistribute,
--                                         get_fl_index.
--   Alloc, Free, Realloc, RoundTrip       xmalloc, xfree, xrealloc, and two of them together.
-- Collatz   chal2/starter-ch02/ivec_main.c with the vector of ivec.h: collatz_step, iterate, the visit of a
--           task, scan_and_iterate, worker and the search of main. A long that overflows is a fault,
--           and one that no `int` holds where it becomes one. One worker runs alone.
--   Orbit, Vector      the sequence of a number, and the vector against its list.
--   Visits, Scan, Worker, Most    the visits of one task, a scan of all, the scans of a worker, and
--                                 what main finds.
--
-- Fuel. `parse` has one round more than its vector has tokens, `quicksort` than its range has
-- numbers, `tokenize` and `s_split` than their text has bytes; the theorems that they return show
-- that this is enough. A loop over the free list has 2 ^ 64 rounds, more than the address space
-- has cells, and `hmalloc` calls itself once; `redistribute` has sixteen rounds for sixteen lists,
-- and `worker` the rounds that its caller gives. The other loops are structural recursion on the
-- bound that the source writes.
--
-- Not modelled: in the shell, a fork that fails, the prompt and a script that cannot be opened;
-- what `fgets` gives is a list of lines, as from a terminal or a pipe that no other program reads;
-- where a script is read from a file, the `exit` of a child moves the offset that the shell shares
-- with it. Nor are the mapping of the image (open, mmap) and the callbacks of the file system
-- (nufsmount.c); the files that tsort.c reads and writes; several workers of ivec_main.c at once;
-- the other allocators of chal2; printing; the release of memory that ends an object's life.
pub mod Base
pub mod Nush
pub mod Nufs
pub mod Quicksort
pub mod Tsort
pub mod Hmalloc
pub mod OptMalloc
pub mod Collatz
