-- ===== src/Examples/Turns.antt =====
-- src/clh.c: two threads that use a queue lock.
use qsense.Prelude.{ℕ, ◌≤◌, refl, [], ◌∷◌, arith, length, some, ◌≡◌}
use qsense.DoubleLlist.{Ptr}
use qsense.Clh.{Clh, init_alloc_clh, swap_in, clh_acquire, wait, clh_release}
use qsense.Clh.Queue.{Run, swap, enter, Reachable, start, next, Reachable-alone}

abbrev blank : Ptr → ℕ
blank a = 0

abbrev lock : Clh
lock = init_alloc_clh blank 30

abbrev held : Clh
held = (swap_in (swap_in lock 10).1 20).1

-- Node 10 is in front and node 20 behind it.
abbrev first_in : Run
first_in = record { lock = held; waiting = (20, 10) ∷ []; inside = (10, 30) ∷ []; idle = [] }

first_in_reached :
    Reachable (record { lock = lock; waiting = []; inside = []; idle = 10 ∷ 20 ∷ [] }) first_in
first_in_reached =
    next _ _
      (next _ _ (next _ _ start (swap lock [] [] [] (20 ∷ []) 10))
        (swap (swap_in lock 10).1 ((10, 30) ∷ []) [] [] [] 20))
      (enter held [] ((20, 10) ∷ []) [] [] 10 30 refl)

Reachable-alone_example : length first_in.inside ≤ 1
Reachable-alone_example =
    Reachable-alone blank 30 (10 ∷ 20 ∷ []) first_in (λ x. ground arith) first_in_reached

-- The thread with node 20 gets the lock once that with node 10 has given it back.
hands_over :
    clh_acquire ((λ s. s) ∷ (λ s. (clh_release s 10 30).1) ∷ []) (swap_in lock 10).1 20
    ≡ some (10, (clh_release held 10 30).1)
unfolding wait
hands_over = refl
