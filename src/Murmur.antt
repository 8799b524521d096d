-- ===== src/Murmur.antt =====
-- src/MurmurHash2.c, on bytes, read as on a little-endian machine.
use qsense.Prelude.{ℕ, ◌+◌, ◌*◌, ◌/◌, ◌%◌, ◌^◌, List, [], ◌∷◌, length}
use Prim.Native.Nat.{bit_xor}

abbrev m : ℕ
m = 0x5bd1e995

-- A product of two `unsigned int`s.
abbrev mul32 : ℕ → ℕ → ℕ
mul32 a b = (a * b) % 2 ^ 32

-- One round of the loop, for the word of four bytes.
abbrev pub mix : (h b0 b1 b2 b3 : ℕ) → ℕ
mix h b0 b1 b2 b3 =
    let k0 = b0 + b1 * 2 ^ 8 + b2 * 2 ^ 16 + b3 * 2 ^ 24 in
    let k1 = mul32 k0 m in let k2 = bit_xor k1 (k1 / 2 ^ 24) in bit_xor (mul32 h m) (mul32 k2 m)

-- The loop and the switch on the bytes that are left.
unfoldable pub absorb : ℕ → List ℕ → ℕ
absorb h (b0 ∷ b1 ∷ b2 ∷ b3 ∷ rest) = absorb (mix h b0 b1 b2 b3) rest
absorb h (b0 ∷ b1 ∷ b2 ∷ []) = mul32 (bit_xor (bit_xor (bit_xor h (b2 * 2 ^ 16)) (b1 * 2 ^ 8)) b0) m
absorb h (b0 ∷ b1 ∷ []) = mul32 (bit_xor (bit_xor h (b1 * 2 ^ 8)) b0) m
absorb h (b0 ∷ []) = mul32 (bit_xor h b0) m
absorb h [] = h

unfoldable pub murmurhash2 : (key : List ℕ) → (seed : ℕ) → ℕ
murmurhash2 key seed =
    let h0 = absorb (bit_xor seed (length key)) key in
    let h1 = mul32 (bit_xor h0 (h0 / 2 ^ 13)) m in bit_xor h1 (h1 / 2 ^ 15)
