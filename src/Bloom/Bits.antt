-- ===== src/Bloom/Bits.antt =====
-- Bits of a byte, by evaluation over all bytes and masks.
use qsense.Prelude.{
  ◌==◌, Bool-cases, inl, inr, ℕ, zero, suc, ◌^◌, ◌<◌, ◌≡◌, refl, Bool, true, ◌&&◌, ◌||◌, not, arith,
  ltb,
}
use Prim.Native.Nat.{bit_and, bit_or}

-- A test of all numbers below a limit, which evaluates where the limit is a literal.
passes_to : (ℕ → Bool) → (limit : ℕ) → Bool
passes_to test zero = true
passes_to test (suc limit) = passes_to test limit && test limit

passes_to-each :
    (test : ℕ → Bool) (limit : ℕ)
    → passes_to test limit ≡ true
    → (k : ℕ) → k < limit
    → test k ≡ true
unfolding passes_to
passes_to-each test zero passed k lt = absurd (omega arith)
passes_to-each test (suc limit) passed k lt = elim (Bool-cases (k == limit)) [
  | inl last ↦ let same : limit ≡ k = ground arith in ground arith
  | inr early ↦ passes_to-each test limit (ground arith) k (ground arith)
]

abbrev has_bit : ℕ → ℕ → Bool
has_bit c i = ltb 0 (bit_and c (2 ^ i))

-- Setting bit `i` sets it and keeps bit `j`.
abbrev sets : ℕ → ℕ → ℕ → Bool
sets c i j =
    has_bit (bit_or c (2 ^ i)) i
    && (not (has_bit c j) || has_bit (bit_or c (2 ^ i)) j)
    && ltb (bit_or c (2 ^ i)) 256

sets_table : passes_to (λ c. passes_to (λ i. passes_to (λ j. sets c i j) 8) 8) 256 ≡ true
unfolding passes_to
sets_table = refl

sets-all : (c i j : ℕ) → c < 256 → i < 8 → j < 8 → sets c i j ≡ true
sets-all c i j hc hi hj =
    let row =
      passes_to-each (λ c. passes_to (λ i. passes_to (λ j. sets c i j) 8) 8) 256 sets_table c hc in
    let cell = passes_to-each (λ i. passes_to (λ j. sets c i j) 8) 8 row i hi in
    passes_to-each (λ j. sets c i j) 8 cell j hj

-- `c | 1 << i` of a byte is a byte that has bit `i`, and every bit that `c` has.
pub bit_or_sets : (c i : ℕ) → c < 256 → i < 8 → ltb 0 (bit_and (bit_or c (2 ^ i)) (2 ^ i)) ≡ true
bit_or_sets c i hc hi = let e = sets-all c i i hc hi hi in ground (arith, e)

pub bit_or_keeps :
    (c i j : ℕ)
    → c < 256
    → i < 8
    → j < 8
    → ltb 0 (bit_and c (2 ^ j)) ≡ true
    → ltb 0 (bit_and (bit_or c (2 ^ i)) (2 ^ j)) ≡ true
bit_or_keeps c i j hc hi hj h = let e = sets-all c i j hc hi hj in ground (arith, e)

pub bit_or_fits : (c i : ℕ) → c < 256 → i < 8 → bit_or c (2 ^ i) < 256
bit_or_fits c i hc hi = let e = sets-all c i i hc hi hi in ground (arith, e)
