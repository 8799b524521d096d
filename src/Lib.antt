-- ===== src/Lib.antt =====
-- Verification library of QSense: safe memory reclamation for lock-free data structures.
--
-- The program links one of three reclamation schemes under a lock-free set. A thread that has
-- unlinked a node from the set hands it to `free_node_later`; the scheme wraps it in an `mr_node`
-- and frees it when no thread can hold a reference to it any more.
--
-- - Prelude: library names, Boolean tests, lists measured by native numbers, arrays as functions.
-- - DoubleLlist (src/double_llist.c, include/double_llist.h, include/mr.h): the list of wrappers
--   as links in an explicit memory. Seg and Link hold the lemmas on segments; AddToHead,
--   RemoveFromTail and RemoveNode show that the three operations act like those of Deque, the view
--   as a list from head to tail which the hazard pointers use.
-- - LockIf (include/lock_if.h): the ticket lock, `LOCK=TICKET`, that guards the global epoch.
-- - Qsbr (src/qsbr.c, include/qsbr.h): quiescent-state-based reclamation. The state is the globals,
--   the array `qd` as a function of the thread's index, and the list of nodes freed so far. Epoch
--   is about `update_epoch`, Pass about the branches of `quiescent_state`, Count about `rcount`, Exit
--   about `mr_thread_exit`, and Grace about many threads as a step relation.
-- - Smr (src/smr.c, include/smr.h): hazard pointers. The state is the array `HP` and one thread's
--   data. Scan is about `scan`, Bound about the nodes that wait, Exit about `mr_thread_exit`.
-- - Hybrid (src/hybrid_optimized.c, include/qsbr_smr_hybrid.h): QSense itself. State holds the
--   globals, `shtd` with the `ltd` of each thread, and the nodes freed; Quiescence, Hazards and Modes
--   hold the operations. Age is about `is_old_enough`, Scan about `scan`, Switch about what the
--   operations do to the flags, Fallback about runs of several threads' calls.
-- - SsAlloc (src/ssalloc.c): one pool allocator of one thread. Queue shows that the ring of free
--   blocks is a queue and that no block is handed out twice.
-- - Bloom (src/bloom.c, include/bloom.h) and Murmur (src/MurmurHash2.c): the Bloom filter and its
--   hash. Bits has facts on bytes, Members shows that what was added is found.
-- - Harris (src/linkedlist-harris): Harris' list over a heap of nodes, without reclamation. Find is
--   about `harris_find`, Agree about changes of the heap that keep the set, Search about `list_search`.
--   Walk is the induction along that search. Hazard is the list with hazard pointers, over any scheme
--   that has them, with Protect about what they hold, Quiet about the search without other threads
--   and Gap about what they do not hold; Qsense and Hp are its two schemes (src/linkedlist-harris-qsense
--   and -hp), Qsbr the list over quiescent states (src/linkedlist-harris-qsbr).
-- - Bst.Hazard (src/bst-aravind-hp), with Bst.Hp and Bst.Qsense (src/bst-aravind-qsense): the tree with
--   hazard pointers over any scheme, and its two schemes; a stage of a seek takes what the others do.
-- - Bst.Qsbr (src/bst-aravind-qsbr): the updates of the tree over quiescent states.
-- - LockIf.Tickets (include/lock_if.h): the runs of the threads that use a ticket lock.
-- - Clh (src/clh.c, include/clh.h): the queue lock. Queue is about the runs of the threads that use it.
-- - HtLock (src/htlock.c): the hierarchical ticket lock; spinning takes a list of what the others do.
-- - Bst (src/bst-aravind): the external search tree without reclamation, over a heap of nodes. The loops run
--   on fuel, for which the number of internal nodes is enough, and an update has a list of rounds.
--   Loss is about the nodes that a removal takes out of the tree.
-- - Fraser (src/skiplist-fraser): Fraser's skip list over a heap of nodes, without reclamation. Update
--   holds the updates, Height the drawing of heights, Set the rest of the files, and Empty is about a
--   new set. Levels, Below, Descend and Search are about `fraser_search`; Quiet is the skip list as a
--   list of nodes; Marks, Unlinked, Unlink, Keys, Remove, Shapes, Cut and Unbind are about
--   `fraser_remove`, Link, Fresh, Grow, Insert, Add and Bind about `fraser_insert`, and Roundtrip puts
--   them together.
-- - Fraser.Hazard (src/skiplist-fraser-hp): the skip list with hazard pointers, over any scheme that
--   has them, with its updates in Update over any search. Hold is about what the hazard pointers hold,
--   Calm about searches while no other thread acts; Hp and Qsense (src/skiplist-fraser-qsense) are its
--   two schemes.
-- - Fraser.Qsbr (src/skiplist-fraser-qsbr): the skip list over quiescent states.
-- - Keys (include/common.h): the keys of the sets.
-- - Examples: tests, and the theorems at concrete inputs.
--
-- Numbers. Fields of fixed width are natural numbers with their wrap-around written out: `rcount` is
-- a 32-bit pattern, `size` and the tickets wrap at 2 ^ 32. The macro `K` is the argument `k`.
--
-- Loops. A counted loop recurs on its rounds. `mr_thread_exit` of src/qsbr.c has the rounds that the
-- code gives it, 100 for each thread. Where the code waits for other threads without a bound (the
-- blocking quiescent state, the exit loop of src/smr.c) the model takes the list of what the others do
-- at each yield, and has no result when the list is too short.
--
-- The loops of the list run on fuel; one unit for each node of the list and one more is enough. Updates
-- of the list take, for each round of their loop, what the others do before the CAS; with hazard
-- pointers, a round of a search takes what they do before the check of the link and before the CAS on a
-- deleted node. Keys stand for
-- `intptr_t` values that lie 2^63 below. The trap for the key 600000, which prints, is left out.
--
-- The skip list has fuel of one unit more than it has nodes for the walk on a level, and a number of tries
-- for the jumps to `retry`, of which one is enough while no other thread acts. Its updates take what the
-- others do before each CAS as a list.
--
-- Allocation. The block that `ssalloc_alloc` returns is an argument. `free_node_later` of src/smr.c
-- faults when it is NULL; the one of src/hybrid_optimized.c is modelled for a block that is not NULL,
-- since the code writes through it without a test. `ssfree_alloc` is recorded:
-- an entry of `freed` stands for the free of a node and of its wrapper. In src/qsbr.c the field
-- `created` of a wrapper is never written; Grace lets the allocation find the current time there.
--
-- Time. A scan of the hybrid scheme takes the reading of the clock for each node as an argument. The
-- code reads `cur->mr_prev` of a block that it has handed back to the pool allocator, which leaves that
-- word alone; the model takes the rest of the list as it was.
--
-- Atomicity. The runs of Hybrid take each call as one step. Grace takes each call of
-- `free_node_later` and each pass of `quiescent_state` as one step.
-- A thread that is delayed between clearing and restoring `in_critical` inside `quiescent_state` is
-- not covered.
--
-- Not modelled: the sleeper threads themselves, the test drivers, timers and platform headers, and
-- libatomic_ops, a copy of another project's library.
pub mod Bloom
pub mod Bst
pub mod Clh
pub mod Deque
pub mod DoubleLlist
pub mod Examples
pub mod Fraser
pub mod Harris
pub mod HtLock
pub mod Hybrid
pub mod Keys
pub mod LockIf
pub mod Murmur
pub mod Prelude
pub mod Qsbr
pub mod Smr
pub mod SsAlloc
