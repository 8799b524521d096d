-- ===== src/Smr.antt =====
-- src/smr.c and include/smr.h: hazard pointers. `k` is the macro `K`, the number of hazard pointers
-- of a thread, which include/smr.h sets for the data structure at hand.
pub mod Scan
pub mod Bound
pub mod Exit
use qsense.Prelude.{
  ℕ, zero, suc, ◌+◌, ◌-◌, ◌*◌, ◌%◌, ◌^◌, Bool, true, false, ◌&&◌, ◌||◌, not, Option, none, some,
  List, [], ◌∷◌, ◌++◌, ◌==◌, ltb, leb, if◌then◌else◌, put, length, has,
}
use qsense.DoubleLlist.{Ptr, null}
use qsense.Deque.{add_to_head, remove_from_tail}

-- `struct mr_node`: its address and the node that it stands for.
pub record MrNode : Type 0 where
  pub address : Ptr
  pub actual_node : Ptr

-- The array `HP`, the `struct smr_data` of one thread (`rcount` is a `uint32_t`), and the nodes that
-- it has handed to `ssfree_alloc`, oldest first: an entry stands for the free of its node and then
-- of the wrapper.
pub record Smr : Type 0 where
  pub hp : ℕ → Ptr
  pub rlist : List MrNode
  pub rcount : ℕ
  pub nthreads : ℕ
  pub thread_index : ℕ
  pub hp_index_base : ℕ
  pub freed : List MrNode

-- `H` and `R`.
abbrev pub hazard_count : (k nthreads : ℕ) → ℕ
hazard_count k nthreads = k * nthreads

abbrev pub scan_limit : (k nthreads : ℕ) → ℕ
scan_limit k nthreads = 100 + 2 * hazard_count k nthreads

-- The part of `mr_init_global` that clears the array.
unfoldable pub init_hps : (ℕ → Ptr) → (count : ℕ) → ℕ → Ptr
init_hps hp count i = if ltb i count then null else hp i

unfoldable pub mr_init_local : (hp : ℕ → Ptr) → (k thread_index nthreads : ℕ) → Smr
mr_init_local hp k thread_index nthreads = record {
  hp = hp;
  rlist = [];
  rcount = 0;
  nthreads = nthreads;
  thread_index = thread_index;
  hp_index_base = (thread_index * k) % 2 ^ 32;
  freed = [];
}

-- Stage 1 of `scan`: the hazard pointers `i`, …, `i + n - 1` that are not null.
unfoldable pub collect : (ℕ → Ptr) → (n i : ℕ) → List Ptr
collect hp zero i = []
collect hp (suc n) i = if hp i == null then collect hp n (i + 1) else hp i ∷ collect hp n (i + 1)

abbrev pub ssearch : List Ptr → Ptr → Bool
ssearch plist key = has key plist

-- What the loop of stage 3 changes.
pub record Sorted : Type 0 where
  pub rlist : List MrNode
  pub rcount : ℕ
  pub freed : List MrNode

-- The body of that loop, for the node `cur` off the tail of `tmplist`.
abbrev pub keep_or_free : List Ptr → MrNode → Sorted → Sorted
keep_or_free plist cur st =
    if ssearch plist cur.actual_node
    then record st { rlist = add_to_head cur st.rlist; rcount = (st.rcount + 1) % 2 ^ 32 }
    else record st { freed = st.freed ++ cur ∷ [] }

-- `while (tmplist.size > 0)`. `none` is the fault of dereferencing the NULL that an empty list gives.
unfoldable pub scan_loop : List Ptr → (size : ℕ) → List MrNode → Sorted → Option Sorted
scan_loop plist zero tmplist st = some st
scan_loop plist (suc size) tmplist st = elim (remove_from_tail tmplist) [
  | none ↦ none
  | some (cur, tmplist') ↦ scan_loop plist size tmplist' (keep_or_free plist cur st)
]

-- `scan`, of the thread whose data is `s`.
unfoldable pub scan : ℕ → Smr → Option Smr
scan k s =
    let plist = collect s.hp (hazard_count k s.nthreads) 0 in
    elim (scan_loop plist (length s.rlist % 2 ^ 32) s.rlist
      (record { rlist = []; rcount = 0; freed = s.freed })) [
        | none ↦ none
        | some st ↦ some (record s { rlist = st.rlist; rcount = st.rcount; freed = st.freed })
      ]

-- `free_node_later(n)`, where `ssalloc_alloc` has returned `wrapper`. `none` is a fault of `scan`, or
-- that of `wrapper_node->actual_node = n` for a `wrapper` that is NULL.
unfoldable pub free_node_later : ℕ → Smr → (wrapper n : Ptr) → Option Smr
free_node_later k s wrapper n =
    let s1 : Smr = record s {
      rlist = add_to_head (record { address = wrapper; actual_node = n }) s.rlist;
      rcount = (s.rcount + 1) % 2 ^ 32;
    } in
    let scanned = scan k s1 in
    if wrapper == null
    then none
    else (if leb (scan_limit k s.nthreads) s1.rcount then scanned else some s1)

unfoldable pub assign_hp : Smr → (target : Ptr) → (hp_index : ℕ) → Smr
assign_hp s target hp_index = record s { hp = put s.hp (s.hp_index_base + hp_index) target }

-- The first loop of `mr_thread_exit`.
unfoldable pub clear_hps : ℕ → Smr → Smr
clear_hps k s = record s {
  hp = λ j. if leb (k * s.thread_index) j && ltb j (k * s.thread_index + k) then null else s.hp j;
}

-- The second loop of `mr_thread_exit`; each `yield` says what the other threads make of the hazard
-- pointers at a `sched_yield`. `none` if the yields given are not enough, or after a fault.
unfoldable pub exit_loop : ℕ → List ((ℕ → Ptr) → ℕ → Ptr) → Smr → Option Smr
exit_loop k [] s = if ltb 0 s.rcount then none else some s
exit_loop k (yield ∷ more) s =
    let rest : Option Smr = elim (scan k s) [
      | none ↦ none
      | some s1 ↦ exit_loop k more (record s1 { hp = yield s1.hp })
    ] in
    if ltb 0 s.rcount then rest else some s

unfoldable pub mr_thread_exit : ℕ → List ((ℕ → Ptr) → ℕ → Ptr) → Smr → Option Smr
mr_thread_exit k yields s = exit_loop k yields (clear_hps k s)
