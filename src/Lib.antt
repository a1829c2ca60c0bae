-- ===== src/Lib.antt =====
-- Models of the C programs that RefinedC verifies, and proofs about the models.
--
-- Every operation of a C file is a function of the same name. A pointer is a number or an address on a
-- heap that is passed on explicitly; a struct is a record, a tagged union a data type. Unsigned
-- arithmetic that can wrap is written modulo 2 ^ 64. `Run` (Base/Run) is the outcome of C code: a value,
-- undefined behaviour (`fault`: a bad access or a failed assertion), a deliberate endless loop (`hang`),
-- or `out_of_fuel`, a bound of the model that the theorems show to be enough where the code ends.
-- `Returns r P` says that a run ends normally with a value that satisfies `P`.
--
-- Base: names of the library, lists and integers over the native numbers, digits of words, `Run`.
--
-- MutableMap: examples/mutable_map.c, a hash map with open addressing and tombstones. `Item` and
-- `FixedSizeMap` are its structs. `fsm_probe` has one round of fuel for each slot: an empty slot is met
-- by then. `fsm_insert` and `fsm_realloc_if_necessary` call one another; two nested calls are enough,
-- since the table that is filled by copying is never itself doubled. Order and Probe have the probing
-- order, View the finite map that a table stands for, Update and Grow the operations, Session a
-- client's sequence of calls. The memory is allocated by `xmalloc`, which does not fail.
--
-- Mpool: examples/mpool.c, a memory pool. The chunk list and the entry list, which the code keeps in the
-- free memory itself, are lists of blocks, the lock is a flag, and a pool's fallback is an address in a
-- store of pools. `round_pointer_up` is only declared there and is a parameter with its specification
-- `RoundsUp`. Bytes counts the bytes that a pool owns; Single, Contiguous, Fallback and Transfer show
-- that each operation moves exactly the bytes that it should. The walk along the fallbacks has one round
-- of fuel for each pool of the chain and one for its end.
--
-- Scheduler: examples/scheduler. Priority is include/fdsched/priority.h, a bitmap of 256 levels; Queue is
-- message.h, a FIFO queue whose `last` is the address of the pointer that ends its list; Npfp is
-- scheduler.h, the queues for each priority with the bitmap that tells the non-empty ones; Fds is
-- src/fdsched.c, which reads messages from file descriptors. The operating system, the allocator, the
-- user's `message_identify_type` and the callbacks are parameters. The loops over messages, channels and
-- iterations have fuel. Demo is src/main.c without its input and output.
--
-- TreeSet: tutorial/t11_tree_set.c, a set as a search tree. The loops of `member` and `insert` are
-- `cursor_loop`, and the store through the cursor is `store_at`. `free_tree` is left out.
--
-- BinarySearch: examples/binary_search.c; the search has one round of fuel for each value and one more.
--
-- EarlyAlloc: linux/casestudies/early_alloc.c, both page allocators; `clear_page` is a parameter.
--
-- Pgtable: linux/casestudies/pgtable.c, page table entries. Words have 64 digits; `WRITE_ONCE` and the
-- stores through pointers are the entry after the call, and WARN_ON is an assertion, as in the code.
-- Digits and Fields have GENMASK, FIELD_GET and FIELD_PREP, Entries, Mappings and Leaf the operations on
-- entries, Attributes `hyp_map_set_prot_attr`. `virt_to_phys`, a callback, is a parameter.
--
-- ListHead: the doubly linked circular lists at the top of linux/casestudies/page_alloc.c. `Links` is the
-- `next` and the `prev` of every node. Ring has insertion and Unlink deletion, on the sequence of the
-- nodes of a ring.
--
-- Buddy: linux/casestudies/page_alloc.c, the buddy allocator, for one pool. A `struct hyp_page` is named by
-- its page frame number. Free has `__hyp_attach_page`, `hyp_put_page` and `hyp_get_page`, Alloc
-- `__hyp_extract_page` and `hyp_alloc_pages`, Setup `hyp_pool_init`. Find is about `__find_buddy`; Cover
-- counts the free blocks that cover a page; Invariant says what a well-formed pool is (`IsPool`): the
-- ring of each order holds aligned blocks of that order in the range of the pool, no two free blocks
-- overlap, and free pages have no references. Relink, Steps, Leave and Edit are the steps that keep it;
-- Same, Merge, Coalesce, Attach and Release are freeing, Halves, Split, Allocate, Clear and Hand allocation,
-- Ready and Start the initialisation, and Cycle an allocation and its release. The loop that coalesces has 12 rounds of
-- fuel, one for each order, the search for a list 13, and the loop that splits one more than the order
-- of the block. `clear_page` and the offset `hyp_physvirt_offset` are parameters; what `clear_page` does to
-- the bytes of the memory is a hypothesis, as is that no page of a pool has the virtual address NULL.
-- `int` counters are not
-- cut to 31 digits.
--
-- Quicksort: tutorial/quicksort_solution.c, on lists that one pointer owns; the recursion of quicksort has
-- fuel.
--
-- BTree: examples/btree.h and examples/btree.c, B-trees of order 5. Splitting has `insert_br`, with its three
-- cases of a full node as functions, and Growing `btree_make_root` and `btree_insert`; the pointers of
-- the path are the frames of a zipper. Entries has the sorted dictionary that a tree stands for, Order
-- its laws, Shape the balance (`IsBalanced`, `IsBtree`). Place says where `key_index` leads, Find is
-- about the search, Cases and Branch about `insert_br`, Route, Descend, Root, Ascend and Overrun about
-- the loops of `btree_insert`, and Insert puts them together. Bounds has the height, and Session calls one after the other. `xmalloc` is a
-- parameter that gives blocks of any content; the recursions follow the tree and need no fuel.
--
-- ArraySort: examples/quick_sort.c. Scan has the two inner loops, Partition `partition`, whose invariant
-- has a hole for the pivot, and Sort `qsort`. The outer loop of partition has one round of fuel more than
-- the range has elements, since each round makes the range smaller.
--
-- TicketLock: linux/pkvm/spinlock.c, threads that take and give up a ticket lock. `step` is one access of a
-- thread to the lock, `run` a schedule of such steps. Invariant has what holds between two steps, Steps
-- that each step keeps it, and Safety what follows. The accesses of the threads are atomic and take place
-- in one order.
--
-- LockTest: examples/spinlock.c with examples/lock.c, threads that call `write_locked`, `read_locked` and
-- `increment`. As in TicketLock a step is one access, so `a += 1` is a load and a store, and the accesses
-- take place in one order. Sequential
-- says what the calls do alone, and Runs that every schedule amounts to such calls one after the other.
--
-- NextPermutation: `next` of examples/VerifyThis2021/challenge1.c. Scan has the two searches, Reverse the swap
-- and the loop that reverses the end, with one round of fuel more than the array has elements,
-- Lexicographic the order, and Result the whole. It uses the arrays of ArraySort.
--
-- LinkedList: tutorial/t03_list.c, lists on a heap of nodes. Chain says what nodes a pointer leads through,
-- Reverse, Append and Reading are named for their operations. A loop is given one round of fuel more than the
-- list has nodes.
--
-- Not modelled: several pools in one array of pages; threads except in TicketLock and LockTest, so elsewhere a lock that is held makes `sl_lock` wait for ever; the layout of objects in
-- bytes, except for the pool's blocks; the RefinedC front end and its Coq theories.
pub mod ArraySort
pub mod BTree
pub mod Base
pub mod BinarySearch
pub mod Buddy
pub mod EarlyAlloc
pub mod LinkedList
pub mod ListHead
pub mod LockTest
pub mod Mpool
pub mod MutableMap
pub mod NextPermutation
pub mod Pgtable
pub mod Quicksort
pub mod Scheduler
pub mod TicketLock
pub mod TreeSet
