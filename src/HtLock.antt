-- ===== src/HtLock.antt =====
-- src/htlock.c and include/htlock.h: the hierarchical ticket lock, a global ticket lock over one of each
-- NUMA node, whose holder shares up to 128 tickets with its neighbours.
pub mod Handover
use qsense.Prelude.{
  ℕ, zero, suc, ◌+◌, ◌-◌, ◌%◌, ◌^◌, Bool, true, false, not, ◌&&◌, ◌||◌, Option, none, some, List,
  [], ◌∷◌, ◌==◌, ltb, if◌then◌else◌, put,
}

-- `NB_TICKETS_LOCAL`.
abbrev pub nb_tickets_local : ℕ
nb_tickets_local = 128

pub record HtLockGlobal : Type 0 where
  pub nxt : ℕ
  pub cur : ℕ

-- The fields are 32-bit `int`s, as their bit patterns.
pub record HtLockLocal : Type 0 where
  pub nxt : ℕ
  pub cur : ℕ

pub record HtLock : Type 0 where
  pub global : HtLockGlobal
  pub local : ℕ → HtLockLocal

abbrev pub set_local : HtLock → (node : ℕ) → HtLockLocal → HtLock
set_local l node p = record l { local = put l.local node p }

-- The sockets below `NUMBER_OF_SOCKETS` are all there are.
abbrev pub init_htlock : HtLock
init_htlock = record {
  global = record { nxt = 0; cur = 0 };
  local = λ n. record { nxt = 0; cur = nb_tickets_local };
}

abbrev pub is_free_hticket : HtLock → Bool
is_free_hticket l = (l.global).cur == (l.global).nxt

-- What the other threads do.
abbrev pub Others : Type 0
Others = HtLock → HtLock

-- Spinning until a test holds: what the others do before each test, and what is left of it.
unfoldable pub spin : List Others → (HtLock → Bool) → HtLock → Option (List Others × HtLock)
spin [] test l = none
spin (other ∷ others) test l =
    let l1 = other l in
    let rest = spin others test l1 in if test l1 then some (others, l1) else rest

-- The part of `htlock_lock` for the thread that gets the ticket -1.
unfoldable pub lock_global : List Others → HtLock → (my_node : ℕ) → Option HtLock
lock_global others l my_node =
    elim (spin others (λ h. (h.local my_node).cur == nb_tickets_local) l) [
      | none ↦ none
      | some (left, l1) ↦
          let l2 = set_local l1 my_node (record (l1.local my_node) { nxt = nb_tickets_local }) in
          let global_ticket = (l2.global).nxt in
          let l3 = record l2 {
            global = record (l2.global) { nxt = (global_ticket + 1) % 2 ^ 32 };
          } in
          elim (spin left (λ h. (h.global).cur == global_ticket) l3) [
            | none ↦ none
            | some (_, l4) ↦ some l4
          ]
    ]

-- `htlock_lock`. A ticket below -1 tries again; no result if what the others do comes to an end first.
unfoldable pub htlock_lock : List Others → HtLock → (my_node : ℕ) → Option HtLock
htlock_lock [] l my_node = none
htlock_lock (other ∷ others) l my_node =
    let p = l.local my_node in
    let local_ticket = (p.nxt + 4294967295) % 2 ^ 32 in
    let l1 = set_local l my_node (record p { nxt = local_ticket }) in
    let again_local = htlock_lock others (other l1) my_node in
    let wait_ticket : Option HtLock =
      elim (spin (other ∷ others) (λ h. (h.local my_node).cur == local_ticket) l1) [
        | none ↦ none
        | some (_, l2) ↦ some l2
      ] in
    if ltb local_ticket (2 ^ 31)
    then wait_ticket
    else if ltb local_ticket 4294967295
    then again_local
    else lock_global (other ∷ others) l1 my_node

unfoldable pub htlock_release : HtLock → (my_node : ℕ) → HtLock
htlock_release l my_node =
    let p = l.local my_node in
    let local_nxt = p.nxt in
    let p1 = if local_nxt == p.cur then record p { nxt = 0 } else p in
    let given_up = set_local l my_node (record p1 { cur = nb_tickets_local }) in
    if (p.cur == 0) || (p.cur == local_nxt)
    then record given_up { global = record (l.global) { cur = ((l.global).cur + 1) % 2 ^ 32 } }
    else set_local l my_node (record p1 { cur = (p.cur + 4294967295) % 2 ^ 32 })

-- `htlock_trylock`: `global_nxt` is what it reads before the CAS, in which both fields are compared.
unfoldable pub htlock_trylock : HtLock → (global_nxt : ℕ) → Bool × HtLock
htlock_trylock l global_nxt =
    if ((l.global).nxt == global_nxt) && ((l.global).cur == global_nxt)
    then (true, record l { global = record { nxt = (global_nxt + 1) % 2 ^ 32; cur = global_nxt } })
    else (false, l)

unfoldable pub htlock_release_try : HtLock → HtLock
htlock_release_try l = record l {
  global = record (l.global) { cur = ((l.global).cur + 1) % 2 ^ 32 };
}
