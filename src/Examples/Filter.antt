-- ===== src/Examples/Filter.antt =====
-- src/bloom.c and src/MurmurHash2.c at a concrete filter.
use qsense.Prelude.{◌≡◌, refl, true, arith, [], ◌∷◌, Each}
use qsense.Murmur.{murmurhash2, absorb}
use qsense.Bloom.{Bloom, returns, traps, bloom_init, bloom_check, bloom_check_add, probe}
use qsense.Bloom.Members.{add_all, add_all-found, bloom_init-IsFilter}

abbrev blank : Bloom
blank = record { bits = 0; bytes = 0; hashes = 0; bf = λ i. 0; ready = true }

abbrev s : Bloom
s = (bloom_init blank 100 3 true).1

hash_of_nothing : murmurhash2 [] 0 ≡ 0
unfolding murmurhash2 absorb
hash_of_nothing = refl

not_there_yet : bloom_check s (1 ∷ 2 ∷ 3 ∷ 4 ∷ []) ≡ returns 0
unfolding bloom_init bloom_check_add probe murmurhash2 absorb
not_there_yet = refl

-- One entry and an error of 0.9 make 0 bits and 1 hash.
no_bits : bloom_check (bloom_init blank 0 1 true).1 (1 ∷ []) ≡ traps
unfolding bloom_init bloom_check_add
no_bits = refl

add_all-found_example :
    Each
      (λ k. bloom_check (add_all ((1 ∷ 2 ∷ []) ∷ (3 ∷ []) ∷ []) s) k ≡ returns 1)
      ((1 ∷ 2 ∷ []) ∷ (3 ∷ []) ∷ [])
add_all-found_example =
    add_all-found ((1 ∷ 2 ∷ []) ∷ (3 ∷ []) ∷ []) s (bloom_init-IsFilter blank 100 3 (omega arith))
