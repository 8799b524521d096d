-- ===== src/Qsbr.antt =====
-- src/qsbr.c and include/qsbr.h: quiescent-state-based reclamation over three epochs.
pub mod Epoch
pub mod Pass
pub mod Grace
pub mod Count
pub mod Exit
use qsense.Prelude.{
  ℕ, zero, suc, ◌+◌, ◌-◌, ◌*◌, ◌%◌, ◌^◌, Bool, true, false, ◌&&◌, ◌||◌, not, Option, none, some,
  List, [], ◌∷◌, ◌++◌, ◌==◌, ltb, if◌then◌else◌, put, length,
}
use qsense.LockIf.{TicketSt, ticket_init, ticket_trylock, ticket_unlock}

-- `struct mr_node` on a singly linked limbo list: its address, the node that it stands for, and the
-- time stamp that this scheme never writes, so that it holds whatever the allocation found there.
pub record MrNode : Type 0 where
  pub address : ℕ
  pub actual_node : ℕ
  pub created : ℕ

abbrev pub n_epochs : ℕ
n_epochs = 3

-- `struct qsbr_data`. A limbo list stands head first; `rcount` is a 32-bit `int`, as its bit pattern.
pub record QsbrData : Type 0 where
  pub limbo_list : ℕ → List MrNode
  pub epoch : ℕ
  pub in_critical : ℕ
  pub rcount : ℕ

-- `struct qsbr_globals`, the array `qd` with its length, and the nodes handed to `ssfree_alloc` so
-- far, oldest first: an entry stands for the free of its node and then of the wrapper itself.
pub record Qsbr : Type 0 where
  pub update_lock : TicketSt
  pub global_epoch : ℕ
  pub nthreads : ℕ
  pub qd : ℕ → QsbrData
  pub freed : List MrNode

abbrev pub set_data : Qsbr → ℕ → QsbrData → Qsbr
set_data s i t = record s { qd = put s.qd i t }

-- The loop of `update_epoch`: does one of the threads `i`, …, `i + n - 1` hold the epoch back?
unfoldable pub held_back : (ℕ → QsbrData) → (curr_epoch me n i : ℕ) → Bool
held_back qd curr_epoch me zero i = false
held_back qd curr_epoch me (suc n) i =
    ((qd i).in_critical == 1) && not ((qd i).epoch == curr_epoch) && not (i == me)
    || held_back qd curr_epoch me n (i + 1)

unfoldable pub update_epoch : Qsbr → ℕ → Bool × Qsbr
update_epoch s me =
    let (got, locked) = ticket_trylock s.update_lock s.update_lock in
    if got
    then (if held_back s.qd s.global_epoch me s.nthreads 0
        then (false, record s { update_lock = ticket_unlock locked })
        else (
          true,
          record s {
            update_lock = ticket_unlock locked;
            global_epoch = (s.global_epoch + 1) % n_epochs;
          },
        ))
    else (false, record s { update_lock = locked })

-- `mr_init_global`; the source's loop enters the threads `i < nthreads`, and the entries past the
-- array's end are idle here. `entries_since_update` is never used.
unfoldable pub mr_init_global : ℕ → Qsbr
mr_init_global nthreads = record {
  update_lock = ticket_init;
  global_epoch = 1;
  nthreads = nthreads;
  qd = λ i. record {
    limbo_list = λ j. [];
    epoch = 0;
    in_critical = if ltb i nthreads then 1 else 0;
    rcount = 0;
  };
  freed = [];
}

-- It leaves the limbo lists alone.
unfoldable pub mr_reinitialize : Qsbr → Qsbr
mr_reinitialize s = record s {
  update_lock = ticket_init;
  global_epoch = 1;
  qd = λ i.
      if ltb i s.nthreads
      then record (s.qd i) { epoch = 0; in_critical = 1; rcount = 0 }
      else s.qd i;
}

-- The loop of `process_callbacks`: what is freed, in order, behind `done`, and how many.
unfoldable pub free_all : List MrNode → List MrNode → ℕ → List MrNode × ℕ
free_all [] done num = (done, num)
free_all (w ∷ rest) done num = free_all rest (done ++ w ∷ []) ((num + 1) % 2 ^ 64)

-- `process_callbacks(&(t->limbo_list[slot]))` by thread `me`.
unfoldable pub process_callbacks : Qsbr → (me slot : ℕ) → Qsbr
process_callbacks s me slot =
    let t = s.qd me in
    let (freed, num) = free_all (t.limbo_list slot) s.freed 0 in
    record s {
      freed = freed;
      qd = put s.qd me (record t {
        limbo_list = put t.limbo_list slot [];
        rcount = (t.rcount + 2 ^ 32 - num % 2 ^ 32) % 2 ^ 32;
      });
    }

-- Entering the epoch `epoch`: the callbacks of its last incarnation are due.
unfoldable pub enter_epoch : Qsbr → (me epoch : ℕ) → Qsbr
enter_epoch s me epoch =
    let s1 = process_callbacks s me epoch in set_data s1 me (record (s1.qd me) { epoch = epoch })

abbrev pub set_critical : Qsbr → (me flag : ℕ) → Qsbr
set_critical s me flag = set_data s me (record (s.qd me) { in_critical = flag })

-- One pass of `quiescent_state` from its label `retry`; the flag says that the caller is to retry
-- if it is blocking.
unfoldable pub quiescent_pass : Qsbr → ℕ → Bool × Qsbr
quiescent_pass s me =
    if (s.qd me).epoch == s.global_epoch
    then (let (res, s1) = update_epoch (set_critical s me 0) me in
        let s2 = set_critical s1 me (s.qd me).in_critical in
        if res
        then (if (s2.qd me).epoch == s2.global_epoch
            then (false, s2)
            else (false, enter_epoch s2 me s2.global_epoch))
        else (true, s2))
    else (false, enter_epoch s me s.global_epoch)

-- What the other threads do while this one yields.
abbrev pub Others : Type 0
Others = Qsbr → Qsbr

-- `quiescent_state(FUZZY)`.
unfoldable pub quiescent_state_fuzzy : Qsbr → ℕ → Qsbr
quiescent_state_fuzzy s me = (quiescent_pass s me).1

-- `quiescent_state(NOT_FUZZY)`: each retry comes after a yield to the others; `none` means that the
-- yields given were not enough.
unfoldable pub quiescent_state_blocking : List Others → Qsbr → ℕ → Option Qsbr
quiescent_state_blocking [] s me =
    let (again, s1) = quiescent_pass s me in if again then none else some s1
quiescent_state_blocking (yield ∷ more) s me =
    let (again, s1) = quiescent_pass s me in
    let rest = quiescent_state_blocking more (yield s1) me in if again then rest else some s1

-- The end of `free_node_later`: `wrapper` is the block that `ssalloc_alloc` returned, with whatever
-- it holds.
unfoldable pub link_wrapper : Qsbr → (me q : ℕ) → MrNode → Qsbr
link_wrapper s me q wrapper =
    let t = s.qd me in
    set_data s me (record t {
      limbo_list =
          put t.limbo_list t.epoch (record wrapper { actual_node = q } ∷ t.limbo_list t.epoch);
      rcount = (t.rcount + 1) % 2 ^ 32;
    })

-- `free_node_later`. Each failed allocation, `none`, is followed by a blocking quiescent state with
-- its yields; the last answer is a block. No result if a quiescent state does not come to an end.
unfoldable pub free_node_later : Qsbr → (me q : ℕ) → List (List Others) → MrNode → Option Qsbr
free_node_later s me q [] wrapper = some (link_wrapper s me q wrapper)
free_node_later s me q (yields ∷ failures) wrapper = elim (quiescent_state_blocking yields s me) [
  | none ↦ none
  | some s1 ↦ free_node_later s1 me q failures wrapper
]

-- `rcount > 0`, for the `int` with this bit pattern.
abbrev pub is_positive : ℕ → Bool
is_positive r = ltb 0 r && ltb r (2 ^ 31)

-- The loop of `mr_thread_exit`, with the retries that are left; `yield` is what the others do at the
-- `sched_yield` of each round.
unfoldable pub exit_loop : ℕ → Others → Qsbr → ℕ → Qsbr
exit_loop zero yield s me = s
exit_loop (suc left) yield s me =
    let rest = exit_loop left yield (yield (quiescent_state_fuzzy s me)) me in
    if is_positive (s.qd me).rcount then rest else s

unfoldable pub mr_thread_exit : Others → Qsbr → ℕ → Qsbr
mr_thread_exit yield s me = exit_loop (100 * s.nthreads) yield (set_critical s me 0) me
