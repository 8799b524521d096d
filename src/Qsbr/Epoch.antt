-- ===== src/Qsbr/Epoch.antt =====
-- src/qsbr.c: when `update_epoch` moves the global epoch, and what one pass of `quiescent_state`
-- does on each of its branches.
use qsense.Prelude.{
  ℕ, zero, suc, ◌+◌, ◌%◌, ◌<◌, ◌≤◌, ◌≡◌, ◌≢◌, ◌↔◌, refl, Bool, true, false, ◌&&◌, not, arith, ◌==◌,
  Bool-cases, inl, inr, if◌then◌else◌,
}
use native.Mathlib.Decide.{ℕ_discrete}
use qsense.LockIf.{
  IsFree, TicketSt, ticket_trylock, ticket_unlock, ticket_trylock-IsFree, ticket_trylock_held,
}
use qsense.Qsbr.{QsbrData, Qsbr, n_epochs, held_back, update_epoch}

-- Every other thread that is in a critical section has seen the current epoch.
abbrev pub AllCurrent : Qsbr → ℕ → Type 0
AllCurrent s me =
    (i : ℕ) → i < s.nthreads → i ≢ me → (s.qd i).in_critical ≡ 1 → (s.qd i).epoch ≡ s.global_epoch

pub held_back-current :
    (qd : ℕ → QsbrData) (curr me n i : ℕ)
    → held_back qd curr me n i ≡ false
    → (j : ℕ) → i ≤ j
    → j < i + n
    → j ≢ me
    → (qd j).in_critical ≡ 1
    → (qd j).epoch ≡ curr
unfolding held_back
held_back-current qd curr me zero i h j p q ne c = absurd (omega arith)
held_back-current qd curr me (suc n) i h j p q ne c = elim (Bool-cases (i == j)) [
  | inl here ↦ ground arith
  | inr later ↦
      held_back-current qd curr me n (i + 1) (ground arith) j (ground arith) (omega arith) ne c
]

pub held_back-late :
    (qd : ℕ → QsbrData) (curr me n i : ℕ)
    → held_back qd curr me n i ≡ true
    → (j : ℕ) × (j < i + n) × (j ≢ me) × ((qd j).in_critical ≡ 1) × ((qd j).epoch ≢ curr)
unfolding held_back
held_back-late qd curr me zero i h = cc
held_back-late qd curr me (suc n) i h =
    elim (Bool-cases (((qd i).in_critical == 1) && not ((qd i).epoch == curr) && not (i == me))) [
      | inl late ↦ (i, omega arith, ground arith, ground arith, ground arith)
      | inr fine ↦
          let (j, lt, ne, c, e) = held_back-late qd curr me n (i + 1) (ground arith) in
          (j, omega arith, ne, c, e)
    ]

-- What `update_epoch` leaves alone, whatever it returns.
pub record Unmoved (s t : Qsbr) : Type 0 where
  pub same_threads : t.qd ≡ s.qd
  pub same_size : t.nthreads ≡ s.nthreads
  pub same_freed : t.freed ≡ s.freed

-- The lock after a round trip through `ticket_trylock` and `ticket_unlock`.
abbrev pub relocked : TicketSt → TicketSt
relocked l = ticket_unlock (ticket_trylock l l).1

abbrev pub late : Qsbr → ℕ → Bool
late s me = held_back s.qd s.global_epoch me s.nthreads 0

abbrev pub moved_on : Qsbr → Qsbr
moved_on s = record s {
  update_lock = relocked s.update_lock;
  global_epoch = (s.global_epoch + 1) % n_epochs;
}

pub update_epoch-held :
    (s : Qsbr) (me : ℕ) → ¬ (IsFree s.update_lock) → update_epoch s me ≡ (false, s)
unfolding update_epoch
update_epoch-held s me h = rw (ticket_trylock_held s.update_lock h)

pub update_epoch-late :
    (s : Qsbr) (me : ℕ)
    → IsFree s.update_lock
    → late s me ≡ true
    → update_epoch s me ≡ (false, record s { update_lock = relocked s.update_lock })
unfolding update_epoch
update_epoch-late s me h l = rw ((ticket_trylock-IsFree s.update_lock h).0, l)

pub update_epoch-moves :
    (s : Qsbr) (me : ℕ)
    → IsFree s.update_lock
    → late s me ≡ false
    → update_epoch s me ≡ (true, moved_on s)
unfolding update_epoch
update_epoch-moves s me h l = rw ((ticket_trylock-IsFree s.update_lock h).0, l)

-- update_epoch returns true exactly when the lock is free and every other thread in a critical
-- section is current; then the epoch moves on by one modulo three, and otherwise it stays. A free
-- lock is free again on return, and the threads' data do not change.
update_epoch_iff :
    (s : Qsbr) (me : ℕ)
    → (((update_epoch s me).0 ≡ true) ↔ IsFree s.update_lock × AllCurrent s me)
      × ((update_epoch s me).1.global_epoch
          ≡ (if (update_epoch s me).0 then (s.global_epoch + 1) % n_epochs else s.global_epoch))
      × (IsFree s.update_lock → IsFree (update_epoch s me).1.update_lock)
      × Unmoved s (update_epoch s me).1
update_epoch_iff s me = elim (ℕ_discrete s.update_lock.ticket s.update_lock.curr) [
  | no h ↦ rw (update_epoch-held s me h) (
    ((λ e. cc), λ (free, _). absurd (h free)),
    refl,
    (λ free. free),
    record { same_threads = refl; same_size = refl; same_freed = refl },
  )
  | yes h ↦ elim (Bool-cases (late s me)) [
    | inl l ↦
        let (j, lt, ne, c, e) = held_back-late s.qd s.global_epoch me s.nthreads 0 l in
        rw (update_epoch-late s me h l) (
          ((λ e. cc), λ (_, all). absurd (e (all j (omega arith) ne c))),
          refl,
          (λ free. (ticket_trylock-IsFree s.update_lock free).1),
          record { same_threads = refl; same_size = refl; same_freed = refl },
        )
    | inr l ↦ rw (update_epoch-moves s me h l) (
      (
        (λ _. (
          h,
          λ j lt ne c.
              held_back-current s.qd s.global_epoch me s.nthreads 0 l j (omega arith) (omega arith)
                ne c,
        )),
        λ _. refl,
      ),
      refl,
      (λ free. (ticket_trylock-IsFree s.update_lock free).1),
      record { same_threads = refl; same_size = refl; same_freed = refl },
    )
  ]
]
