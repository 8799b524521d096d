-- ===== src/Examples/Handovers.antt =====
-- The hierarchical ticket lock of src/htlock.c, from its initial state.
use qsense.Prelude.{ℕ, ◌≡◌, refl, true, false, some, [], ◌∷◌, arith}
use qsense.HtLock.{
  HtLock, init_htlock, is_free_hticket, htlock_lock, htlock_release, htlock_trylock,
  htlock_release_try,
}
use qsense.HtLock.Handover.{IsIdle, lock-release, trylock-release_stuck}

lock-release_example :
    (l1 : HtLock) × (htlock_lock ((λ h. h) ∷ ((λ h. h) ∷ [])) init_htlock 1 ≡ some l1)
    × (is_free_hticket l1 ≡ false)
    × (is_free_hticket (htlock_release l1 1) ≡ true)
    × IsIdle (htlock_release l1 1) 1
lock-release_example = lock-release init_htlock 1 [] (ground arith) refl (refl, refl)

trylock-release_stuck_example :
    (let (got, l1) = htlock_trylock init_htlock 0 in
      let l2 = htlock_release l1 1 in
      (got ≡ true)
      × (is_free_hticket l2 ≡ false)
      × ((global_nxt : ℕ) → (htlock_trylock l2 global_nxt).0 ≡ false))
trylock-release_stuck_example = trylock-release_stuck init_htlock 1 (ground arith) refl (refl, refl)

-- What `htlock_release_try` is for.
released : is_free_hticket (htlock_release_try (htlock_trylock init_htlock 0).1) ≡ true
unfolding htlock_trylock htlock_release_try
released = refl
