-- ===== src/Examples/Tickets.antt =====
-- The ticket lock of include/lock_if.h: one thread takes a ticket and gets the lock while another waits.
use qsense.Prelude.{◌≡◌, ◌≤◌, refl, true, [], ◌∷◌, arith, ◌⊎◌}
use qsense.LockIf.{ticket_init, ticket_take, ticket_unlock}
use qsense.LockIf.Tickets.{
  Run, take_ticket, enter, leave, Reachable, begin, onward, first_served, Reachable-exclusive,
}

abbrev r0 : Run
r0 = record { lock = ticket_init; waiting = []; inside = 0 }

abbrev r2 : Run
r2 = record { lock = record { ticket = 2; curr = 0 }; waiting = 0 ∷ (1 ∷ []); inside = 0 }

abbrev r3 : Run
r3 = record { lock = record { ticket = 2; curr = 0 }; waiting = 1 ∷ []; inside = 1 }

abbrev r4 : Run
r4 = record { lock = record { ticket = 2; curr = 1 }; waiting = 1 ∷ []; inside = 0 }

two_wait : Reachable r2
unfolding ticket_init ticket_take
two_wait =
    let r1 : Run = record {
      lock = record { ticket = 1; curr = 0 };
      waiting = 0 ∷ [];
      inside = 0;
    } in
    onward r1 r2 (onward r0 r1 begin (take_ticket r0 (omega arith))) (take_ticket r1 (omega arith))

handed_over : Reachable r4
unfolding ticket_unlock
handed_over =
    onward r3 r4
      (onward r2 r3 two_wait (enter (record { ticket = 2; curr = 0 }) [] (1 ∷ []) 0 0 refl))
      (leave (record { ticket = 2; curr = 0 }) (1 ∷ []) 0)

Reachable-exclusive_example :
    (r4.inside ≤ 1) × ((r4.inside ≡ 1) ⊎ (first_served r4.lock r4.waiting ≡ true))
Reachable-exclusive_example = Reachable-exclusive r4 handed_over
