-- ===== src/Hybrid/Modes.antt =====
-- src/hybrid_optimized.c: the switch between the two schemes.
use qsense.Prelude.{
  ℕ, zero, suc, ◌+◌, ◌%◌, ◌^◌, Bool, true, ◌&&◌, not, ◌==◌, ltb, leb, if◌then◌else◌, put,
}
use qsense.Hybrid.State.{TimeVal, MrNode, Hybrid, switch_threshold, set_data}
use qsense.Hybrid.Quiescence.{quiescent_state, quiesce_times}
use qsense.Hybrid.Hazards.{scan}

abbrev pub set_last_flag : Hybrid → (me flag : ℕ) → Hybrid
set_last_flag s me flag = set_data s me (record (s.td me) { last_flag = flag })

-- `allocate_fail(trials)`.
unfoldable pub allocate_fail : (MrNode → TimeVal) → Hybrid → (me trials : ℕ) → Hybrid
allocate_fail clock s0 me trials =
    let t = s0.td me in
    let s =
      set_data s0 me (record t { allocate_fail_count = (t.allocate_fail_count + 1) % 2 ^ 64 }) in
    let flag = s.fallback_flag in
    if (t.last_flag == 1) && (flag == 0)
    then set_last_flag (quiesce_times 100 s me) me 0
    else if flag == 1
    then set_last_flag (scan clock s me) me 1
    else if (flag == 0) && leb switch_threshold trials
    then scan clock (set_last_flag (record s { fallback_flag = 1 }) me 1) me
    else set_last_flag (quiescent_state s me) me 0

-- The loop of `all_threads_present` over the threads `i`, …, `i + n - 1`.
unfoldable pub none_absent : (ℕ → ℕ) → (n i : ℕ) → Bool
none_absent present zero i = true
none_absent present (suc n) i = not (present i == 0) && none_absent present n (i + 1)

unfoldable pub all_threads_present : Hybrid → Bool
all_threads_present s = none_absent s.is_present_vect s.nthreads 0

unfoldable pub manage_hybrid_state : Hybrid → ℕ → Hybrid
manage_hybrid_state s0 me =
    let s = record s0 { is_present_vect = put s0.is_present_vect me 1 } in
    let flag = s.fallback_flag in
    if ((s.td me).last_flag == 1) && (flag == 0)
    then set_last_flag (quiesce_times 100 s me) me 0
    else if flag == 0
    then set_last_flag (quiescent_state s me) me 0
    else if flag == 1
    then (if all_threads_present s
        then set_last_flag
            (quiesce_times 10 (set_last_flag (record s { fallback_flag = 0 }) me 0) me) me 1
        else set_last_flag s me 1)
    else s

-- Called by one of the sleeper threads.
unfoldable pub reset_presence : Hybrid → Hybrid
reset_presence s = record s {
  is_present_vect = λ i. if ltb i s.nthreads then 0 else s.is_present_vect i;
}
