-- ===== src/Bloom/Members.antt =====
-- src/bloom.c: an element that has been added is found, whatever is added later.
use qsense.Prelude.{
  ℕ, zero, suc, ◌+◌, ◌*◌, ◌/◌, ◌^◌, ◌%◌, ◌<◌, ◌≤◌, ◌≡◌, refl, ◌∙◌, ap, subst, true, false, List, [],
  ◌∷◌, arith, ◌==◌, ltb, put, put_self, Each, Each-map, Bool-cases, inl, inr,
}
use Prim.Native.Nat.{bit_and, bit_or}
use native.Mathlib.Nat.{mod-lt}
use qsense.Murmur.{murmurhash2}
use qsense.Bloom.{
  Bloom, returns, bloom_init, mask, is_set, position, probe, bloom_check_add, bloom_check,
  bloom_add,
}
use qsense.Bloom.Bits.{bit_or_sets, bit_or_keeps, bit_or_fits}

-- Every entry is a byte.
abbrev pub IsBytes : (ℕ → ℕ) → Type 0
IsBytes bf = (i : ℕ) → bf i < 256

-- What `probe` writes for a bit that is not set.
abbrev with_bit : (ℕ → ℕ) → ℕ → ℕ → ℕ
with_bit bf x = put bf (x / 8) (bit_or (bf (x / 8)) (mask x))

with_bit-IsBytes : (bf : ℕ → ℕ) (x : ℕ) → IsBytes bf → IsBytes (with_bit bf x)
with_bit-IsBytes bf x h i =
    let fits = bit_or_fits (bf (x / 8)) (x % 8) (h (x / 8)) (omega arith) in
    ground (arith, fits, h i)

with_bit_sets : (bf : ℕ → ℕ) (x : ℕ) → IsBytes bf → is_set (with_bit bf x) x ≡ true
with_bit_sets bf x h =
    ap (λ c. ltb 0 (bit_and c (mask x))) (put_self bf (x / 8) _)
    ∙ bit_or_sets (bf (x / 8)) (x % 8) (h (x / 8)) (omega arith)

with_bit_keeps :
    (bf : ℕ → ℕ) (x y : ℕ) → IsBytes bf → is_set bf y ≡ true → is_set (with_bit bf x) y ≡ true
with_bit_keeps bf x y h set = elim (Bool-cases (x / 8 == y / 8)) [
  | inl same ↦
      let e : x / 8 ≡ y / 8 = ground arith in
      let byte : put bf (x / 8) (bit_or (bf (x / 8)) (mask x)) (y / 8)
          ≡ bit_or (bf (y / 8)) (mask x) =
        rw same (rw e refl) in
      ap (λ c. ltb 0 (bit_and c (mask y))) byte
      ∙ bit_or_keeps (bf (y / 8)) (x % 8) (y % 8) (h (y / 8)) (omega arith) (omega arith) set
  | inr other ↦ rw other set
]

-- The bits of the rounds `i`, …, `i + n - 1` are set.
abbrev IsMarked : (a b bits n i : ℕ) → (ℕ → ℕ) → Type 0
IsMarked a b bits n i bf = (j : ℕ) → i ≤ j → j < i + n → is_set bf (position a b bits j) ≡ true

-- A pass that adds leaves bytes, keeps the bits that are set, and sets its own.
record Marks (a b bits n i : ℕ) (bf bf1 : ℕ → ℕ) : Type 0 where
  bytes : IsBytes bf1
  keeps : (y : ℕ) → is_set bf y ≡ true → is_set bf1 y ≡ true
  marked : IsMarked a b bits n i bf1

Marks-cons :
    (a b bits n i : ℕ) (bf bf0 bf1 : ℕ → ℕ)
    → is_set bf0 (position a b bits i) ≡ true
    → ((y : ℕ) → is_set bf y ≡ true → is_set bf0 y ≡ true)
    → Marks a b bits n (i + 1) bf0 bf1
    → Marks a b bits (suc n) i bf bf1
Marks-cons a b bits n i bf bf0 bf1 first kept m = record {
  bytes = m.bytes;
  keeps = λ y h. m.keeps y (kept y h);
  marked = λ j lo hi. elim (Bool-cases (i == j)) [
    | inl here ↦
        subst (λ k. is_set bf1 (position a b bits k) ≡ true) (ground arith)
          (m.keeps (position a b bits i) first)
    | inr later ↦ m.marked j (ground arith) (omega arith)
  ];
}

probe-Marks :
    (a b bits n i hits : ℕ) (bf : ℕ → ℕ)
    → IsBytes bf
    → Marks a b bits n i bf (probe true a b bits n i hits bf).1
unfolding probe
probe-Marks a b bits zero i hits bf h = record {
  bytes = h;
  keeps = λ y k. k;
  marked = λ j lo hi. absurd (omega arith);
}
probe-Marks a b bits (suc n) i hits bf h =
    let x = position a b bits i in
    elim (Bool-cases (is_set bf x)) [
      | inl set ↦ rw set (
          Marks-cons a b bits n i bf bf _ set (λ y k. k)
            (probe-Marks a b bits n (i + 1) (hits + 1) bf h))
      | inr clear ↦ rw clear (
          Marks-cons a b bits n i bf (with_bit bf x) _ (with_bit_sets bf x h)
            (λ y k. with_bit_keeps bf x y h k)
            (probe-Marks a b bits n (i + 1) hits (with_bit bf x) (with_bit-IsBytes bf x h)))
    ]

probe-hits :
    (a b bits n i hits : ℕ) (bf : ℕ → ℕ)
    → IsMarked a b bits n i bf
    → (probe false a b bits n i hits bf).0 ≡ hits + n
unfolding probe
probe-hits a b bits zero i hits bf m = omega arith
probe-hits a b bits (suc n) i hits bf m =
    let first : is_set bf (position a b bits i) ≡ true = m i (omega arith) (omega arith) in
    let rest =
      probe-hits a b bits n (i + 1) (hits + 1) bf (λ j lo hi. m j (omega arith) (omega arith)) in
    rw first (omega (arith, rest))

-- A filter that `bloom_init` has set up, with at least one bit.
pub record IsFilter (s : Bloom) : Type 0 where
  pub is_ready : s.ready ≡ true
  pub has_bits : 0 < s.bits
  pub bytes : IsBytes s.bf

pub bloom_init-IsFilter :
    (s : Bloom) (bits hashes : ℕ) → 0 < bits → IsFilter (bloom_init s bits hashes true).1
unfolding bloom_init
bloom_init-IsFilter s bits hashes pos = record {
  is_ready = refl;
  has_bits = pos;
  bytes = λ i. omega arith;
}

-- All bits of an element are set.
abbrev Remembers : Bloom → List ℕ → Type 0
Remembers s k =
    let a = murmurhash2 k 0x9747b28c in IsMarked a (murmurhash2 k a) s.bits s.hashes 0 s.bf

Remembers-check :
    (s : Bloom) (k : List ℕ) → IsFilter s → Remembers s k → bloom_check s k ≡ returns 1
unfolding bloom_check_add
Remembers-check s k f r =
    let a = murmurhash2 k 0x9747b28c in
    let hits = probe-hits a (murmurhash2 k a) s.bits s.hashes 0 0 s.bf r in
    let found = (probe false a (murmurhash2 k a) s.bits s.hashes 0 0 s.bf).0 in
    let all : (found == s.hashes) ≡ true = ground (arith, hits) in
    let divides : (s.bits == 0) ≡ false = ground (arith, f.has_bits) in
    rw (f.is_ready, bloom_check) (rw divides (rw all refl))

-- What adding one element does.
record Adds (s : Bloom) (k : List ℕ) (t : Bloom) : Type 0 where
  filter : IsFilter t
  new : Remembers t k
  old : (other : List ℕ) → Remembers s other → Remembers t other

bloom_add-Adds : (s : Bloom) (k : List ℕ) → IsFilter s → Adds s k (bloom_add s k).1
unfolding bloom_check_add
bloom_add-Adds s k f =
    let a = murmurhash2 k 0x9747b28c in
    let m = probe-Marks a (murmurhash2 k a) s.bits s.hashes 0 0 s.bf f.bytes in
    let divides : (s.bits == 0) ≡ false = ground (arith, f.has_bits) in
    rw f.is_ready (
      rw divides (record {
        filter = record { is_ready = refl; has_bits = f.has_bits; bytes = m.bytes };
        new = m.marked;
        old = λ other r j lo hi. m.keeps _ (r j lo hi);
      }))

-- Adding elements in turn.
abbrev pub add_all : List (List ℕ) → Bloom → Bloom
add_all [] s = s
add_all (k ∷ ks) s = add_all ks (bloom_add s k).1

add_all-Remembers :
    (ks : List (List ℕ)) (s : Bloom)
    → IsFilter s
    → IsFilter (add_all ks s)
      × Each (Remembers (add_all ks s)) ks
      × ((k : List ℕ) → Remembers s k → Remembers (add_all ks s) k)
add_all-Remembers [] s f = (f, tt, λ k r. r)
add_all-Remembers (k ∷ ks) s f =
    let m = bloom_add-Adds s k f in
    let (filter, each, kept) = add_all-Remembers ks (bloom_add s k).1 m.filter in
    (filter, (kept k m.new, each), λ other r. kept other (m.old other r))

-- In an initialised filter with at least one bit, whose entries are bytes, bloom_check finds every element that bloom_add has been given, whatever
-- else was added before and after it.
pub add_all-found :
    (ks : List (List ℕ)) (s : Bloom)
    → IsFilter s
    → Each (λ k. bloom_check (add_all ks s) k ≡ returns 1) ks
add_all-found ks s f =
    let (filter, each, kept) = add_all-Remembers ks s f in
    Each-map ks (λ k r. Remembers-check (add_all ks s) k filter r) each

-- Each bit that a pass over an initialised filter looks at lies within its bytes.
position-le_bytes :
    (s : Bloom) (a b bits hashes i : ℕ)
    → 0 < bits
    → position a b bits i / 8 < (bloom_init s bits hashes true).1.bytes
unfolding bloom_init
position-le_bytes s a b bits hashes i pos =
    let lt : position a b bits i < bits = mod-lt ((a + i * b) % 2 ^ 32) pos in ground (arith, lt)
