-- ===== src/Smr/Exit.antt =====
-- The end of a thread in src/smr.c.
use qsense.Prelude.{ℕ, ◌+◌, Option, some, [], occurrences, ◌≡◌}
use qsense.DoubleLlist.{Ptr}
use qsense.Smr.{MrNode, Smr}

-- What the other threads do to the hazard pointers while this one yields.
abbrev pub Yield : Type 0
Yield = (ℕ → Ptr) → ℕ → Ptr

abbrev with_hp : Smr → (ℕ → Ptr) → Smr
with_hp s hp = record s { hp = hp }

-- The loop has ended, nothing is left unreclaimed, and what was retired in `s` has been freed: each
-- wrapper as often as it stood on the list, and no other.
abbrev pub Left : Smr → Option Smr → Type 0
Left s o =
    (t : Smr) × (o ≡ some t)
    × (t.rlist ≡ [])
    × (t.rcount ≡ 0)
    × ((f : MrNode → ℕ) (x : ℕ)
        → occurrences f x t.freed ≡ occurrences f x s.rlist + occurrences f x s.freed)
