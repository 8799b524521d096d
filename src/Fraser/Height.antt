-- ===== src/Fraser/Height.antt =====
-- src/skiplist-fraser/skiplist.c: the heights of nodes and of a whole skip list.
use qsense.Prelude.{
  ℕ, zero, suc, ◌+◌, ◌-◌, ◌%◌, ◌^◌, ◌<◌, ◌≤◌, ◌≡◌, ltb, if◌then◌else◌, arith, Bool-cases, inl, inr,
}

-- The loop of `get_rand_level`, with what `rand_range(101)` returns in each round.
unfoldable pub level_loop : (draws : ℕ → ℕ) → (rounds i level : ℕ) → ℕ
level_loop draws zero i level = level
level_loop draws (suc rounds) i level =
    let more = level_loop draws rounds (i + 1) (level + 1) in
    if ltb (draws i) 50 then more else level

unfoldable pub get_rand_level : (levelmax : ℕ) → (draws : ℕ → ℕ) → ℕ
get_rand_level levelmax draws = level_loop draws ((levelmax + 2 ^ 32 - 1) % 2 ^ 32) 0 1

level_loop-bounds :
    (draws : ℕ → ℕ) (rounds i level : ℕ)
    → (level ≤ level_loop draws rounds i level) × (level_loop draws rounds i level ≤ level + rounds)
unfolding level_loop
level_loop-bounds draws zero i level = (omega arith, omega arith)
level_loop-bounds draws (suc rounds) i level =
    let (low, high) = level_loop-bounds draws rounds (i + 1) (level + 1) in
    elim (Bool-cases (ltb (draws i) 50)) [
      | inl more ↦ rw more (omega (arith, low), omega (arith, high))
      | inr stop ↦ rw stop (omega arith, omega arith)
    ]

-- The height of a node is from 1 to `levelmax`.
pub get_rand_level-bounds :
    (levelmax : ℕ) (draws : ℕ → ℕ)
    → 0 < levelmax
    → levelmax < 2 ^ 32
    → (0 < get_rand_level levelmax draws) × (get_rand_level levelmax draws ≤ levelmax)
unfolding get_rand_level
get_rand_level-bounds levelmax draws some_level small =
    let rounds : (levelmax + 2 ^ 32 - 1) % 2 ^ 32 ≡ levelmax - 1 =
      omega (arith, some_level, small) in
    rw rounds (
      let (low, high) = level_loop-bounds draws (levelmax - 1) 0 1 in
      (omega (arith, low), omega (arith, high, some_level)))
