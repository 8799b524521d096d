-- ===== src/Hybrid/State.antt =====
-- The state of src/hybrid_optimized.c and its initialisation. `K` is 69 in include/qsbr_smr_hybrid.h.
use qsense.Prelude.{ℕ, ◌+◌, ◌*◌, List, [], ltb, if◌then◌else◌, put}
use qsense.DoubleLlist.{Ptr, null}
use qsense.LockIf.{TicketSt, ticket_init}

-- `struct timeval`.
pub record TimeVal : Type 0 where
  pub tv_sec : ℕ
  pub tv_usec : ℕ

-- `struct mr_node`: its address, the node that it stands for, its time stamp.
pub record MrNode : Type 0 where
  pub address : Ptr
  pub actual_node : Ptr
  pub created : TimeVal

-- `shtd[i]` and the `ltd` of thread `i`. A limbo list stands head first. `rcount` is a `uint64_t`,
-- `free_calls` a `uint32_t`.
pub record ThreadData : Type 0 where
  pub epoch : ℕ
  pub in_critical : ℕ
  pub process_callbacks_count : ℕ
  pub scan_count : ℕ
  pub allocate_fail_count : ℕ
  pub limbo_list : ℕ → List MrNode
  pub rcount : ℕ
  pub last_flag : ℕ
  pub free_calls : ℕ

-- The globals, the threads' data, and the nodes freed so far, oldest first.
pub record Hybrid : Type 0 where
  pub update_lock : TicketSt
  pub global_epoch : ℕ
  pub fallback_flag : ℕ
  pub hp : ℕ → Ptr
  pub is_present_vect : ℕ → ℕ
  pub nthreads : ℕ
  pub td : ℕ → ThreadData
  pub freed : List MrNode

abbrev pub n_epochs : ℕ
n_epochs = 3

abbrev pub switch_threshold : ℕ
switch_threshold = 10

-- `SLEEP_AMOUNT + MARGIN`, in milliseconds.
abbrev pub age_limit : ℕ
age_limit = 150 + 50

abbrev pub k : ℕ
k = 69

-- `H` and `R`.
abbrev pub hazard_count : Hybrid → ℕ
hazard_count s = k * s.nthreads

abbrev pub scan_limit : Hybrid → ℕ
scan_limit s = 100 + 2 * hazard_count s

abbrev pub set_data : Hybrid → ℕ → ThreadData → Hybrid
set_data s i t = record s { td = put s.td i t }

unfoldable pub mr_init_local : Hybrid → ℕ → Hybrid
mr_init_local s me =
    set_data s me
      (record (s.td me) { rcount = 0; last_flag = 0; free_calls = 0; limbo_list = λ j. [] })

-- `mr_init_global`; the counters that it does not set, and `ltd`, are as in `s`.
unfoldable pub mr_init_global : Hybrid → ℕ → Hybrid
mr_init_global s nthreads = record s {
  update_lock = ticket_init;
  global_epoch = 1;
  fallback_flag = 0;
  hp = λ i. if ltb i (k * nthreads) then null else s.hp i;
  is_present_vect = λ i. if ltb i nthreads then 1 else s.is_present_vect i;
  nthreads = nthreads;
  td = λ i.
      if ltb i nthreads
      then record (s.td i) {
        epoch = 0;
        in_critical = 1;
        process_callbacks_count = 0;
        scan_count = 0;
      }
      else s.td i;
}

unfoldable pub mr_reinitialize : Hybrid → Hybrid
mr_reinitialize s = record s {
  global_epoch = 1;
  td = λ i. if ltb i s.nthreads then record (s.td i) { epoch = 0 } else s.td i;
}
