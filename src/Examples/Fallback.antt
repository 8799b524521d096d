-- ===== src/Examples/Fallback.antt =====
-- src/hybrid_optimized.c at two concrete threads.
use qsense.Prelude.{
  ℕ, ◌+◌, ◌<◌, ◌≤◌, ◌≡◌, ◌≢◌, refl, true, List, [], ◌∷◌, ◌++◌, arith, Each, length, ◌==◌,
  if◌then◌else◌,
}
use qsense.LockIf.{ticket_init}
use qsense.Hybrid.State.{TimeVal, MrNode, ThreadData, Hybrid, switch_threshold}
use qsense.Hybrid.Hazards.{is_old_enough, scan, scan_slot, sweep, collect}
use qsense.Hybrid.Modes.{all_threads_present, none_absent, manage_hybrid_state, allocate_fail}
use qsense.Hybrid.Age.{micros, is_old_enough_iff}
use qsense.Hybrid.Scan.{IsCounted, IsFreeable, waiting, scan-IsFreeable}
use qsense.Hybrid.Switch.{manage_hybrid_state-Managed}
use qsense.Hybrid.Fallback.{
  manage, allocation_failed, perform, run, been_present, fallback_end, fallback_begin,
}

abbrev at : (sec usec : ℕ) → TimeVal
at sec usec = record { tv_sec = sec; tv_usec = usec }

abbrev wrap : ℕ → ℕ → TimeVal → MrNode
wrap a n t = record { address = a; actual_node = n; created = t }

is_old_enough_iff_example :
    (is_old_enough (at 11 100500) (wrap 1 2 (at 10 900999)) ≡ true
      → micros (at 10 900999) + 199000 < micros (at 11 100500))
    × (micros (at 10 900999) + 200000 ≤ micros (at 11 100500)
        → is_old_enough (at 11 100500) (wrap 1 2 (at 10 900999)) ≡ true)
is_old_enough_iff_example =
    is_old_enough_iff (at 11 100500) (wrap 1 2 (at 10 900999)) (omega arith, omega arith)
      (omega arith, omega arith) (omega arith)

-- Less than 200 milliseconds pass as 200: the microseconds are rounded towards zero.
rounds_up : is_old_enough (at 11 100500) (wrap 1 2 (at 10 900999)) ≡ true
unfolding is_old_enough
rounds_up = ground arith

-- Three nodes of slot 0: the oldest is protected, the next is free to go, the last is young.
abbrev thread : ThreadData
thread = record {
  epoch = 0;
  in_critical = 1;
  process_callbacks_count = 0;
  scan_count = 0;
  allocate_fail_count = 0;
  limbo_list = λ j.
      if j == 0 then wrap 3 30 (at 11 0) ∷ wrap 2 20 (at 10 0) ∷ wrap 1 10 (at 9 0) ∷ [] else [];
  rcount = 3;
  last_flag = 0;
  free_calls = 0;
}

abbrev s : Hybrid
s = record {
  update_lock = ticket_init;
  global_epoch = 0;
  fallback_flag = 1;
  hp = λ j. if j == 5 then 10 else 0;
  is_present_vect = λ i. 0;
  nthreads = 2;
  td = λ i. thread;
  freed = [];
}

abbrev clock : MrNode → TimeVal
clock n = at 11 100000

scan-IsFreeable_example :
    (ws : List MrNode) × ((scan clock s 0).freed ≡ s.freed ++ ws)
    × Each (IsFreeable clock s) ws
    × IsCounted ((scan clock s 0).td 0)
    × (waiting ((scan clock s 0).td 0) + length ws ≡ waiting (s.td 0))
scan-IsFreeable_example = scan-IsFreeable clock s 0 (record { counted = refl; fits = omega arith })

frees_one : (scan clock s 0).freed ≡ wrap 2 20 (at 10 0) ∷ []
unfolding scan scan_slot sweep collect is_old_enough
frees_one = refl

fallback_on : (run (manage 0 ∷ []) s).fallback_flag ≡ 1
unfolding manage_hybrid_state all_threads_present none_absent
fallback_on = refl

fallback_off : (run (manage 1 ∷ manage 0 ∷ []) s).fallback_flag ≡ 0
unfolding manage_hybrid_state all_threads_present none_absent
fallback_off = (manage_hybrid_state-Managed (run (manage 0 ∷ []) s) 1).flag

-- The state in which the trials run out.
abbrev calm : Hybrid
calm = record s { fallback_flag = 0 }

fallback_turned_on : (perform (allocation_failed 0 10 clock) calm).fallback_flag ≢ 0
unfolding allocate_fail scan scan_slot
fallback_turned_on = omega arith

fallback_begin_example :
    (me trials : ℕ) × (other : MrNode → TimeVal) × (allocation_failed 0 10 clock
      ≡ allocation_failed me trials other)
    × (switch_threshold ≤ trials)
    × ((calm.td me).last_flag ≢ 1)
fallback_begin_example = fallback_begin calm (allocation_failed 0 10 clock) refl fallback_turned_on

fallback_end_example : been_present (manage 1 ∷ manage 0 ∷ []) 0 ≡ true
fallback_end_example =
    fallback_end s (λ i lt. refl) (manage 0 ∷ []) (manage 1) fallback_on fallback_off 0
      (omega arith)
