-- ===== src/Examples/Pool.antt =====
-- src/ssalloc.c at a concrete pool.
use qsense.Prelude.{◌≡◌, ◌⊎◌, refl, some, [], ◌∷◌, arith}
use qsense.DoubleLlist.{null}
use qsense.SsAlloc.{Pool, ssalloc_alloc, ssfree_alloc}
use qsense.SsAlloc.Queue.{
  queue, pushed, copies, IsOwned, ssalloc_alloc-IsOwned, ssfree_alloc-IsOwned, ssfree_alloc_forgets,
}

-- Block 1000 is in use, nothing is free.
abbrev p : Pool
p = record {
  ssalloc_app_mem = 1000;
  alloc_next = 64;
  ssalloc_size = 1024;
  ssalloc_free_list = λ i. 0;
  ssalloc_free_cur = 65535;
  ssalloc_free_num = 0;
}

fresh_block : (ssalloc_alloc p 64).0 ≡ 1064
unfolding ssalloc_alloc
fresh_block = refl

p-IsOwned : IsOwned (1000 ∷ []) p
p-IsOwned = record {
  pool = record {
    cur_fits = omega arith;
    num_fits = omega arith;
    next_fits = omega arith;
    size_fits = omega arith;
    mem_fits = omega arith;
  };
  once = λ a. ground arith;
  below = λ a h. ground arith;
}

ssalloc_alloc-IsOwned_example :
    ((((ssalloc_alloc p 64).0 ≡ null) × ((ssalloc_alloc p 64).1 ≡ p)))
    ⊎ ((copies (ssalloc_alloc p 64).0 (1000 ∷ []) ≡ 0)
        × IsOwned ((ssalloc_alloc p 64).0 ∷ 1000 ∷ []) (ssalloc_alloc p 64).1)
ssalloc_alloc-IsOwned_example =
    ssalloc_alloc-IsOwned (1000 ∷ []) p 64 p-IsOwned (omega arith) (omega arith)

ssfree_alloc-IsOwned_example :
    (ssfree_alloc p 1000 ≡ some (pushed p 1000)) × IsOwned [] (pushed p 1000)
ssfree_alloc-IsOwned_example = ssfree_alloc-IsOwned [] p 1000 p-IsOwned (omega arith)

ssfree_alloc_forgets_example :
    (ssfree_alloc (record p { ssalloc_free_num = 65535 }) 1000
      ≡ some (pushed (record p { ssalloc_free_num = 65535 }) 1000))
    × (queue (pushed (record p { ssalloc_free_num = 65535 }) 1000) ≡ [])
ssfree_alloc_forgets_example =
    ssfree_alloc_forgets (record p { ssalloc_free_num = 65535 }) 1000 refl
