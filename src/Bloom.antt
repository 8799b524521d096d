-- ===== src/Bloom.antt =====
-- src/bloom.c and include/bloom.h: the filter. Its hash is Murmur.
pub mod Bits
pub mod Members
use qsense.Prelude.{
  ℕ, zero, suc, ◌+◌, ◌*◌, ◌/◌, ◌^◌, ◌%◌, Bool, true, false, ◌&&◌, List, ◌==◌, ltb, if◌then◌else◌,
  put,
}
use Prim.Native.Nat.{bit_and, bit_or}
use qsense.Murmur.{murmurhash2}

-- `struct bloom` without what only describes it, `entries`, `error` and `bpe`. `bf` is an array of
-- bytes.
pub record Bloom : Type 0 where
  pub bits : ℕ
  pub bytes : ℕ
  pub hashes : ℕ
  pub bf : ℕ → ℕ
  pub ready : Bool

-- `bloom_init` for at least one entry and an error that is not 0, with the values of its conversions
-- from `double` to `bits` and `hashes`; `allocated` is whether `calloc` returned a block.
unfoldable pub bloom_init : Bloom → (bits hashes : ℕ) → (allocated : Bool) → ℕ × Bloom
bloom_init bloom bits hashes allocated =
    let bytes = if bits % 8 == 0 then bits / 8 else bits / 8 + 1 in
    let sized : Bloom = record bloom {
      bits = bits;
      bytes = bytes;
      hashes = hashes;
      ready = false;
    } in
    if allocated then (0, record sized { bf = λ i. 0; ready = true }) else (1, sized)

-- Bit `x` of the filter.
abbrev pub mask : ℕ → ℕ
mask x = 2 ^ (x % 8)

abbrev pub is_set : (ℕ → ℕ) → ℕ → Bool
is_set bf x = ltb 0 (bit_and (bf (x / 8)) (mask x))

-- The bit that round `i` looks at. `%` traps for no bits, which `bloom_check_add` below says.
abbrev pub position : (a b bits i : ℕ) → ℕ
position a b bits i = (a + i * b) % 2 ^ 32 % bits

-- The loop of `bloom_check_add`, from round `i` with `n` rounds left: the hits and the bytes.
unfoldable pub probe : (add : Bool) → (a b bits n i hits : ℕ) → (ℕ → ℕ) → ℕ × (ℕ → ℕ)
probe add a b bits zero i hits bf = (hits, bf)
probe add a b bits (suc n) i hits bf =
    let x = position a b bits i in
    let hit = probe add a b bits n (i + 1) (hits + 1) bf in
    let miss = probe add a b bits n (i + 1) hits bf in
    let added = probe add a b bits n (i + 1) hits (put bf (x / 8) (bit_or (bf (x / 8)) (mask x))) in
    if is_set bf x then hit else if add then added else miss

-- How a call ends: it returns 0 or 1, or it returns -1 for a filter that is not initialised, or
-- its first round traps, as it divides by `bits`, which is 0.
pub data Outcome : Type 0 where
  returns : ℕ → Outcome
  not_ready traps : Outcome

unfoldable pub bloom_check_add : Bloom → List ℕ → (add : Bool) → Outcome × Bloom
bloom_check_add bloom buffer add =
    let a = murmurhash2 buffer 0x9747b28c in
    let b = murmurhash2 buffer a in
    let (hits, bf) = probe add a b bloom.bits bloom.hashes 0 0 bloom.bf in
    if bloom.ready
    then (if (bloom.bits == 0) && ltb 0 bloom.hashes
        then (traps, bloom)
        else (returns (if hits == bloom.hashes then 1 else 0), record bloom { bf = bf }))
    else (not_ready, bloom)

abbrev pub bloom_check : Bloom → List ℕ → Outcome
bloom_check bloom buffer = (bloom_check_add bloom buffer false).0

abbrev pub bloom_add : Bloom → List ℕ → Outcome × Bloom
bloom_add bloom buffer = bloom_check_add bloom buffer true
