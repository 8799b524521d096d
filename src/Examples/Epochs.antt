-- ===== src/Examples/Epochs.antt =====
-- src/qsbr.c at concrete schedules of two threads.
use qsense.Prelude.{◌≡◌, refl, List, [], ◌∷◌, ◌++◌, arith, Each, ◌==◌, if◌then◌else◌}
use qsense.LockIf.{ticket_init, ticket_trylock, ticket_unlock}
use qsense.Qsbr.{
  MrNode, Qsbr, held_back, update_epoch, free_all, process_callbacks, enter_epoch, quiescent_pass,
  link_wrapper, mr_init_global, mr_reinitialize, mr_thread_exit,
}
use qsense.Qsbr.Grace.{System, start, retire, quiesce, Reach, initial, next, retires, quiesces}
use qsense.Qsbr.Grace.Safety.{Expired, grace_period}
use qsense.Qsbr.Count.{
  IsCounted, mr_init_global-IsCounted, link_wrapper-IsCounted, quiescent_pass-IsCounted,
  mr_reinitialize_miscounts,
}
use qsense.Qsbr.Exit.{IsAlone, IsDrained, nobody, mr_thread_exit-drains}

-- Thread 0 retires a node; then both threads pass through quiescent states in turn.
abbrev retired : System
retired = retire (start 2) 0 7 1000

abbrev turns : System
turns = quiesce (quiesce (quiesce (quiesce retired 0) 1) 0) 1

turns-Reach : Reach 2 turns
unfolding mr_init_global quiescent_pass link_wrapper update_epoch enter_epoch process_callbacks
    free_all held_back ticket_trylock ticket_unlock ticket_init
turns-Reach =
    next
      (next
        (next (next (next initial (retires 0 7 1000 (omega arith) refl)) (quiesces 0 (omega arith)))
          (quiesces 1 (omega arith)))
        (quiesces 0 (omega arith)))
      (quiesces 1 (omega arith))

-- The next pass of thread 0 moves the epoch on for the second time, and frees the node.
frees_in_time :
    (turns.st.freed ≡ [])
    × ((quiesce turns 0).st.freed ≡ record { address = 1000; actual_node = 7; created = 1 } ∷ [])
unfolding mr_init_global quiescent_pass link_wrapper update_epoch enter_epoch process_callbacks
    free_all held_back ticket_trylock ticket_unlock ticket_init
frees_in_time = (refl, refl)

grace_period_example :
    (ws : List MrNode) × ((quiesce turns 0).st.freed ≡ turns.st.freed ++ ws)
    × Each (Expired turns 0) ws
grace_period_example = grace_period turns-Reach 0

abbrev waiting : Qsbr
waiting =
    link_wrapper (mr_init_global 2) 0 7 (record { address = 1000; actual_node = 0; created = 0 })

waiting-IsCounted : IsCounted waiting
waiting-IsCounted = link_wrapper-IsCounted _ 0 7 _ (mr_init_global-IsCounted 2)

quiescent_pass-IsCounted_example : IsCounted (quiescent_pass waiting 0).1
quiescent_pass-IsCounted_example = quiescent_pass-IsCounted waiting 0 waiting-IsCounted

mr_reinitialize_miscounts_example : ¬ (IsCounted (mr_reinitialize waiting))
unfolding link_wrapper mr_init_global
mr_reinitialize_miscounts_example =
    mr_reinitialize_miscounts waiting 0 (omega arith) (omega arith) (omega arith)

-- One thread of one, with a node waiting.
abbrev single : Qsbr
single =
    link_wrapper (mr_init_global 1) 0 7 (record { address = 1000; actual_node = 0; created = 0 })

abbrev alone : Qsbr
alone = record single {
  qd = λ i. if i == 0 then single.qd 0 else record (single.qd i) { in_critical = 0 };
}

alone-IsAlone : IsAlone alone 0
unfolding link_wrapper mr_init_global ticket_init
alone-IsAlone = record {
  free = refl;
  left = λ i lt ne. ground arith;
  counted = record { global = omega arith; local = λ i. ground arith; counted = λ i. ground arith };
}

mr_thread_exit-drains_example : IsDrained alone 0 (mr_thread_exit nobody alone 0)
unfolding link_wrapper mr_init_global
mr_thread_exit-drains_example =
    mr_thread_exit-drains alone 0 (omega arith) alone-IsAlone (omega arith)
