-- ===== src/Keys.antt =====
-- include/common.h: the keys of the sets. A key of type `intptr_t` is the number that lies 2^63 above
-- it.
use qsense.Prelude.{ℕ, ◌+◌, ◌-◌, ◌^◌}

-- INT_MIN
abbrev pub key_min : ℕ
key_min = 2 ^ 63 - 2 ^ 31

-- INT_MAX - 2
abbrev pub key_max : ℕ
key_max = 2 ^ 63 + 2 ^ 31 - 3
