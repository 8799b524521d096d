-- ===== src/Hybrid/Age.antt =====
-- src/hybrid_optimized.c: what `is_old_enough` measures.
use qsense.Prelude.{ℕ, ◌+◌, ◌*◌, ◌^◌, ◌<◌, ◌≤◌, ◌≡◌, true, arith}
use qsense.Hybrid.State.{TimeVal, MrNode}
use qsense.Hybrid.Hazards.{is_old_enough}

-- A time in microseconds.
abbrev pub micros : TimeVal → ℕ
micros t = t.tv_sec * 1000000 + t.tv_usec

-- What gettimeofday returns: microseconds below a million, seconds far from 2^64 milliseconds.
abbrev pub IsTime : TimeVal → Type 0
IsTime t = (t.tv_usec < 1000000) × (t.tv_sec < 2 ^ 53)

-- On a clock that has not gone back since the node was retired, a node is old enough only when
-- more than 199 milliseconds have passed, and whenever 200 have.
pub is_old_enough_iff :
    (now : TimeVal) (n : MrNode)
    → IsTime now
    → IsTime n.created
    → micros n.created ≤ micros now
    → (is_old_enough now n ≡ true → micros n.created + 199000 < micros now)
      × (micros n.created + 200000 ≤ micros now → is_old_enough now n ≡ true)
unfolding is_old_enough
is_old_enough_iff now n a b le = (λ h. ground arith, λ h. ground arith)
