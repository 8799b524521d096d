-- ===== src/LockIf.antt =====
-- The ticket lock of include/lock_if.h (`LOCK=TICKET`, as the Makefile builds the epoch schemes).
pub mod Tickets
use qsense.Prelude.{ℕ, ◌+◌, ◌%◌, ◌^◌, ◌≡◌, ◌≢◌, Bool, true, false, ◌&&◌, arith, ◌==◌, if◌then◌else◌}

-- `struct ticket_st`: both fields are `uint32_t`.
pub record TicketSt : Type 0 where
  pub ticket : ℕ
  pub curr : ℕ

unfoldable pub ticket_init : TicketSt
ticket_init = record { ticket = 0; curr = 0 }

-- `seen` is what the first load reads, `now` what the compare-and-swap finds.
unfoldable pub ticket_trylock : (seen now : TicketSt) → Bool × TicketSt
ticket_trylock seen now =
    if seen.curr == seen.ticket
    then (if (now.ticket == seen.ticket) && (now.curr == seen.curr)
        then (true, record now { ticket = (seen.ticket + 1) % 2 ^ 32 })
        else (false, now))
    else (false, now)

unfoldable pub ticket_unlock : TicketSt → TicketSt
ticket_unlock l = record l { curr = (l.curr + 1) % 2 ^ 32 }

-- The first step of `ticket_lock`, which takes a ticket; it then spins until `curr` is that ticket.
unfoldable pub ticket_take : TicketSt → ℕ × TicketSt
ticket_take l = (l.ticket, record l { ticket = (l.ticket + 1) % 2 ^ 32 })

abbrev pub ticket_served : TicketSt → (ticket : ℕ) → Bool
ticket_served l ticket = ticket == l.curr

-- Nobody holds the lock.
abbrev pub IsFree : TicketSt → Type 0
IsFree l = l.ticket ≡ l.curr

abbrev pub is_free : TicketSt → Bool
is_free l = l.curr == l.ticket

pub ticket_trylock-IsFree :
    (l : TicketSt)
    → IsFree l
    → ((ticket_trylock l l).0 ≡ true) × IsFree (ticket_unlock (ticket_trylock l l).1)
unfolding ticket_trylock ticket_unlock
ticket_trylock-IsFree l h = ground arith

pub ticket_trylock_held : (l : TicketSt) → l.ticket ≢ l.curr → ticket_trylock l l ≡ (false, l)
unfolding ticket_trylock
ticket_trylock_held l h = ground arith
