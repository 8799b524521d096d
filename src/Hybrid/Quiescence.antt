-- ===== src/Hybrid/Quiescence.antt =====
-- src/hybrid_optimized.c: epochs and quiescent states.
use qsense.Prelude.{
  ℕ, zero, suc, ◌+◌, ◌-◌, ◌%◌, ◌^◌, Bool, true, false, ◌&&◌, ◌||◌, not, List, [], ◌∷◌, ◌++◌, ◌==◌,
  if◌then◌else◌, put, backwards,
}
use qsense.LockIf.{ticket_trylock, ticket_unlock}
use qsense.Hybrid.State.{MrNode, ThreadData, Hybrid, n_epochs, set_data}

-- The loop of `update_epoch` over the threads `i`, …, `i + n - 1`.
unfoldable pub held_back : (ℕ → ThreadData) → (curr_epoch me n i : ℕ) → Bool
held_back td curr_epoch me zero i = false
held_back td curr_epoch me (suc n) i =
    ((td i).in_critical == 1) && not ((td i).epoch == curr_epoch) && not (i == me)
    || held_back td curr_epoch me n (i + 1)

unfoldable pub update_epoch : Hybrid → ℕ → Bool × Hybrid
update_epoch s me =
    let (got, locked) = ticket_trylock s.update_lock s.update_lock in
    if got
    then (if held_back s.td s.global_epoch me s.nthreads 0
        then (false, record s { update_lock = ticket_unlock locked })
        else (
          true,
          record s {
            update_lock = ticket_unlock locked;
            global_epoch = (s.global_epoch + 1) % n_epochs;
          },
        ))
    else (false, record s { update_lock = locked })

-- The loop of `process_callbacks`, over the list from its tail: what is freed behind `done`, how many.
unfoldable pub free_all : List MrNode → List MrNode → ℕ → List MrNode × ℕ
free_all [] done num = (done, num)
free_all (n ∷ rest) done num = free_all rest (done ++ n ∷ []) ((num + 1) % 2 ^ 64)

unfoldable pub process_callbacks : Hybrid → (me slot : ℕ) → Hybrid
process_callbacks s me slot =
    let t = s.td me in
    let (freed, num) = free_all (backwards (t.limbo_list slot)) s.freed 0 in
    record s {
      freed = freed;
      td = put s.td me (record t {
        limbo_list = put t.limbo_list slot [];
        process_callbacks_count = (t.process_callbacks_count + num) % 2 ^ 64;
        rcount = (t.rcount + 2 ^ 64 - num) % 2 ^ 64;
      });
    }

unfoldable pub enter_epoch : Hybrid → (me epoch : ℕ) → Hybrid
enter_epoch s me epoch =
    let s1 = process_callbacks s me epoch in set_data s1 me (record (s1.td me) { epoch = epoch })

abbrev pub set_critical : Hybrid → (me flag : ℕ) → Hybrid
set_critical s me flag = set_data s me (record (s.td me) { in_critical = flag })

-- `quiescent_state(FUZZY)`, the only way in which this scheme is called.
unfoldable pub quiescent_state : Hybrid → ℕ → Hybrid
quiescent_state s me =
    if (s.td me).epoch == s.global_epoch
    then (let (res, s1) = update_epoch (set_critical s me 0) me in
        let s2 = set_critical s1 me (s.td me).in_critical in
        if res
        then (if (s2.td me).epoch == s2.global_epoch then s2 else enter_epoch s2 me s2.global_epoch)
        else s2)
    else enter_epoch s me s.global_epoch

-- `quiescent_state(FUZZY)`, so many times.
unfoldable pub quiesce_times : ℕ → Hybrid → ℕ → Hybrid
quiesce_times zero s me = s
quiesce_times (suc n) s me = quiesce_times n (quiescent_state s me) me
