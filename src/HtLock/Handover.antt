-- ===== src/HtLock/Handover.antt =====
-- src/htlock.c: taking the lock and letting it go again.
use qsense.Prelude.{
  ℕ, ◌+◌, ◌%◌, ◌^◌, ◌<◌, ◌≡◌, refl, ◌∙◌, Bool, true, false, some, List, ◌∷◌, arith, ◌==◌,
}
use qsense.HtLock.{
  HtLock, set_local, nb_tickets_local, is_free_hticket, Others, spin, lock_global, htlock_lock,
  htlock_release, htlock_trylock,
}

-- A node where no thread holds the lock or waits for it.
abbrev pub IsIdle : HtLock → (node : ℕ) → Type 0
IsIdle l node = ((l.local node).nxt ≡ 0) × ((l.local node).cur ≡ nb_tickets_local)

spin_once :
    (left : List Others) (test : HtLock → Bool) (l : HtLock)
    → test l ≡ true
    → spin ((λ h. h) ∷ left) test l ≡ some (left, l)
unfolding spin
spin_once left test l e = rw e refl

-- The lock in the hands of a thread that took the global ticket.
abbrev held : HtLock → (node : ℕ) → HtLock
held l node = record (set_local l node (record (l.local node) { nxt = nb_tickets_local })) {
  global = record (l.global) { nxt = ((l.global).nxt + 1) % 2 ^ 32 };
}

lock_global-held :
    (l : HtLock) (my_node : ℕ) (left : List Others)
    → is_free_hticket l ≡ true
    → (l.local my_node).cur ≡ nb_tickets_local
    → lock_global ((λ h. h) ∷ ((λ h. h) ∷ left)) l my_node ≡ some (held l my_node)
unfolding lock_global
lock_global-held l my_node left free full =
    let l2 = set_local l my_node (record (l.local my_node) { nxt = nb_tickets_local }) in
    let l3 = held l my_node in
    let at_node = λ (h : HtLock). (h.local my_node).cur == nb_tickets_local in
    let at_global = λ (h : HtLock). (h.global).cur == (l.global).nxt in
    rw (lock_global, spin_once ((λ h. h) ∷ left) at_node l (rw full refl))
      (rw (spin_once left at_global l3 free) refl)

htlock_lock-held :
    (l : HtLock) (my_node : ℕ) (left : List Others)
    → is_free_hticket l ≡ true
    → IsIdle l my_node
    → htlock_lock ((λ h. h) ∷ ((λ h. h) ∷ left)) l my_node
      ≡ some (held (set_local l my_node (record (l.local my_node) { nxt = 4294967295 })) my_node)
unfolding htlock_lock
htlock_lock-held l my_node left free (no_tickets, full) =
    let l1 = set_local l my_node (record (l.local my_node) { nxt = 4294967295 }) in
    let at_node : (l1.local my_node).cur ≡ nb_tickets_local = ground (arith, full) in
    let ticket : ((l.local my_node).nxt + 4294967295) % 4294967296 ≡ 4294967295 =
      rw no_tickets refl in
    rw (htlock_lock, ticket) (lock_global-held l1 my_node left free at_node)

release_full :
    (l : HtLock) (my_node : ℕ)
    → (l.local my_node).nxt ≡ nb_tickets_local
    → (l.local my_node).cur ≡ nb_tickets_local
    → (is_free_hticket (htlock_release l my_node)
        ≡ (((l.global).cur + 1) % 4294967296 == (l.global).nxt))
      × IsIdle (htlock_release l my_node) my_node
unfolding htlock_release
release_full l my_node shared full =
    let same : (my_node == my_node) ≡ true = ground arith in
    (
      rw shared (rw full refl),
      (rw shared (rw full (rw same refl)), rw shared (rw full (rw same refl))),
    )

-- On an idle node and a free lock whose next ticket has 32 bits, and while no other thread acts for
-- two rounds, `htlock_lock` comes back with the lock no longer free, and `htlock_release` then
-- leaves the lock free and the node idle.
pub lock-release :
    (l : HtLock) (my_node : ℕ) (left : List Others)
    → (l.global).nxt < 4294967296
    → is_free_hticket l ≡ true
    → IsIdle l my_node
    → (l1 : HtLock) × (htlock_lock ((λ h. h) ∷ ((λ h. h) ∷ left)) l my_node ≡ some l1)
      × (is_free_hticket l1 ≡ false)
      × (is_free_hticket (htlock_release l1 my_node) ≡ true)
      × IsIdle (htlock_release l1 my_node) my_node
lock-release l my_node left small free (no_tickets, full) =
    let l0 = set_local l my_node (record (l.local my_node) { nxt = 4294967295 }) in
    let l1 = held l0 my_node in
    let same : (my_node == my_node) ≡ true = ground arith in
    let (freed, idle) = release_full l1 my_node (rw same refl) (rw same full) in
    (
      l1,
      htlock_lock-held l my_node left free (no_tickets, full),
      ground (arith, free, small),
      freed ∙ ground (arith, free, small),
      idle,
    )

-- `htlock_release` does not undo `htlock_trylock`: on an idle node and a free lock whose next
-- ticket has 32 bits, with both called and no other thread in between, the trylock succeeds, the
-- lock is left taken, and no trylock of the lock so left gets it.
pub trylock-release_stuck :
    (l : HtLock) (my_node : ℕ)
    → (l.global).nxt < 4294967296
    → is_free_hticket l ≡ true
    → IsIdle l my_node
    → (let (got, l1) = htlock_trylock l (l.global).nxt in
        let l2 = htlock_release l1 my_node in
        (got ≡ true)
        × (is_free_hticket l2 ≡ false)
        × ((global_nxt : ℕ) → (htlock_trylock l2 global_nxt).0 ≡ false))
unfolding htlock_trylock htlock_release
trylock-release_stuck l my_node small free (no_tickets, full) =
    let same : ((l.global).nxt == (l.global).nxt) ≡ true = ground arith in
    (
      rw same (rw free refl),
      rw same (rw free (rw no_tickets (rw full (ground (arith, small))))),
      λ n. rw same (rw free (rw no_tickets (rw full (ground (arith, small))))),
    )
