-- ===== src/SsAlloc/Queue.antt =====
-- src/ssalloc.c: the blocks that are free are a queue, and no block is handed out twice.
use qsense.Prelude.{
  ℕ, zero, suc, ◌+◌, ◌-◌, ◌^◌, ◌%◌, ◌<◌, ◌≤◌, ◌≡◌, refl, ◌∙◌, ap, true, false, some, List, [], ◌∷◌,
  ◌++◌, arith, ◌==◌, ltb, put, put_self, put_ne, occurrences, ◌⊎◌, Bool-cases, and_false, inl, inr,
}
use qsense.DoubleLlist.{Ptr, null}
use qsense.SsAlloc.{Pool, ssalloc_alloc, ssfree_alloc}

-- The entries `i`, …, `i + n - 1` of the ring.
abbrev pub ring : (ℕ → Ptr) → (n i : ℕ) → List Ptr
ring f zero i = []
ring f (suc n) i = f (i % 2 ^ 16) ∷ ring f n (i + 1)

-- The free blocks, the one to be handed out first.
abbrev pub queue : Pool → List Ptr
queue p =
    ring p.ssalloc_free_list p.ssalloc_free_num (p.ssalloc_free_cur + 2 ^ 16 - p.ssalloc_free_num)

pub record IsPool (p : Pool) : Type 0 where
  pub cur_fits : p.ssalloc_free_cur < 2 ^ 16
  pub num_fits : p.ssalloc_free_num < 2 ^ 16
  pub next_fits : p.alloc_next ≤ p.ssalloc_size
  pub size_fits : p.ssalloc_size < 2 ^ 63
  pub mem_fits : p.ssalloc_app_mem + p.ssalloc_size < 2 ^ 64

-- The ring depends on the residue of its start only.
ring-residue : (f : ℕ → Ptr) (n i j : ℕ) → i % 2 ^ 16 ≡ j % 2 ^ 16 → ring f n i ≡ ring f n j
ring-residue f zero i j e = refl
ring-residue f (suc n) i j e = λ k. f (e k) ∷ ring-residue f n (i + 1) (j + 1) (omega (arith, e)) k

ring-put :
    (f : ℕ → Ptr) (k : ℕ) (a : Ptr) (n i : ℕ)
    → n < 2 ^ 16
    → k ≡ (i + n) % 2 ^ 16
    → ring (put f k a) (suc n) i ≡ ring f n i ++ a ∷ []
ring-put f k a zero i lt e =
    let here : i % 2 ^ 16 ≡ k = omega (arith, e) in
    λ t. (ap (put f k a) here ∙ put_self f k a) t ∷ []
ring-put f k a (suc n) i lt e = λ t.
    put_ne f k a (i % 2 ^ 16) (omega (arith, e)) t
    ∷ ring-put f k a n (i + 1) (omega arith) (omega (arith, e)) t

-- The pool behind a free.
abbrev pub pushed : Pool → Ptr → Pool
pushed p ptr = record p {
  ssalloc_free_num = (p.ssalloc_free_num + 1) % 2 ^ 16;
  ssalloc_free_list = put p.ssalloc_free_list p.ssalloc_free_cur ptr;
  ssalloc_free_cur = (p.ssalloc_free_cur + 1) % 2 ^ 16;
}

-- ssfree_alloc puts the block at the end of the queue, as long as fewer than 2^16 - 1 wait.
pub ssfree_alloc-queue :
    (p : Pool) (ptr : Ptr)
    → IsPool p
    → p.ssalloc_free_num < 2 ^ 16 - 1
    → (ssfree_alloc p ptr ≡ some (pushed p ptr))
      × IsPool (pushed p ptr)
      × (queue (pushed p ptr) ≡ queue p ++ ptr ∷ [])
unfolding ssfree_alloc
ssfree_alloc-queue p ptr h lt =
    let cur = p.ssalloc_free_cur in
    let num = p.ssalloc_free_num in
    let c = h.cur_fits in
    let n : (num + 1) % 2 ^ 16 ≡ suc num = omega arith in
    let never : ((num + 1) % 2 ^ 16 == 0) ≡ false = ground (arith, n) in
    let q = pushed p ptr in
    (
      rw never refl,
      record {
        cur_fits = omega arith;
        num_fits = omega arith;
        next_fits = h.next_fits;
        size_fits = h.size_fits;
        mem_fits = h.mem_fits;
      },
      ap (λ m. ring q.ssalloc_free_list m ((cur + 1) % 2 ^ 16 + 2 ^ 16 - m)) n
          ∙ ring-residue q.ssalloc_free_list (suc num) ((cur + 1) % 2 ^ 16 + 2 ^ 16 - suc num)
              (cur + 2 ^ 16 - num) (omega (arith, c))
          ∙ ring-put p.ssalloc_free_list cur ptr num (cur + 2 ^ 16 - num) (omega arith)
              (omega (arith, c)),
    )

-- ssalloc_alloc hands out the block that has been free the longest, when more than two are.
pub ssalloc_alloc-queue :
    (p : Pool) (size : ℕ)
    → IsPool p
    → 2 < p.ssalloc_free_num
    → (let (ret, q) = ssalloc_alloc p size in IsPool q × (queue p ≡ ret ∷ queue q))
unfolding ssalloc_alloc
ssalloc_alloc-queue p size h lt =
    let f = p.ssalloc_free_list in
    let cur = p.ssalloc_free_cur in
    let num = p.ssalloc_free_num in
    let m = (num + 2 ^ 16 - 1) % 2 ^ 16 in
    let c = h.cur_fits in
    let b = h.num_fits in
    let start = cur + 2 ^ 16 - num in
    let n : num ≡ suc m = omega (arith, b) in
    let many : ltb 2 num ≡ true = ground arith in
    rw many (
      record {
        cur_fits = h.cur_fits;
        num_fits = omega (arith, b);
        next_fits = h.next_fits;
        size_fits = h.size_fits;
        mem_fits = h.mem_fits;
      },
      ap (λ k. ring f k start) n ∙ (λ t.
          f (start % 2 ^ 16)
          ∷ ring-residue f m (start + 1) (cur + 2 ^ 16 - m) (omega (arith, b, c)) t),
    )

-- How often a block stands in a list.
abbrev pub copies : Ptr → List Ptr → ℕ
copies a xs = occurrences (λ x. x) a xs

copies-snoc : (a : Ptr) (xs : List Ptr) (x : Ptr) → copies a (xs ++ x ∷ []) ≡ copies a (x ∷ xs)
copies-snoc a [] x = refl
copies-snoc a (y ∷ ys) x = ground (arith, copies-snoc a ys x)

-- Each block is in use once or free once, and lies below the end of what has been handed out.
pub record IsOwned (live : List Ptr) (p : Pool) : Type 0 where
  pub pool : IsPool p
  pub once : (a : Ptr) → copies a live + copies a (queue p) ≤ 1
  pub below :
      (a : Ptr) → 0 < copies a live + copies a (queue p) → a < p.ssalloc_app_mem + p.alloc_next

-- Handing out the first block of the queue.
IsOwned-reuse :
    (live : List Ptr) (p : Pool) (ret : Ptr) (q : Pool)
    → IsOwned live p
    → IsPool q
    → queue p ≡ ret ∷ queue q
    → q.ssalloc_app_mem + q.alloc_next ≡ p.ssalloc_app_mem + p.alloc_next
    → (copies ret live ≡ 0) × IsOwned (ret ∷ live) q
IsOwned-reuse live p ret q h fine taken same =
    let split : (a : Ptr) → copies a (queue p) ≡ copies a (ret ∷ queue q) =
      λ a. ap (copies a) taken in
    (
      ground (arith, split ret, h.once ret),
      record {
        pool = fine;
        once = λ a. ground (arith, split a, h.once a);
        below = λ a some_copy. ground (arith, split a, h.below a);
      },
    )

-- Handing out a block from the end.
IsOwned-fresh :
    (live : List Ptr) (p : Pool) (ret : Ptr) (q : Pool)
    → IsOwned live p
    → IsPool q
    → queue q ≡ queue p
    → ret ≡ p.ssalloc_app_mem + p.alloc_next
    → ret < q.ssalloc_app_mem + q.alloc_next
    → (copies ret live ≡ 0) × IsOwned (ret ∷ live) q
IsOwned-fresh live p ret q h fine same at_end lt =
    let unused : (a : Ptr) → ret ≤ a → copies a live + copies a (queue p) ≡ 0 =
      λ a le. ground (arith, h.below a) in
    let kept : (a : Ptr) → copies a (queue q) ≡ copies a (queue p) = λ a. ap (copies a) same in
    (
      omega (arith, unused ret (omega arith)),
      record {
        pool = fine;
        once = λ a. ground (arith, kept a, h.once a, unused a);
        below = λ a some_copy. ground (arith, kept a, h.below a);
      },
    )

-- From a pool whose blocks are each in use once or free once, and for a positive size below 2^63,
-- ssalloc_alloc returns null and changes nothing, or a block that was not in use, and the blocks are
-- again each in use once or free once.
pub ssalloc_alloc-IsOwned :
    (live : List Ptr) (p : Pool) (size : ℕ)
    → IsOwned live p
    → 0 < size
    → size < 2 ^ 63
    → (let (ret, q) = ssalloc_alloc p size in
        ((ret ≡ null) × (q ≡ p)) ⊎ ((copies ret live ≡ 0) × IsOwned (ret ∷ live) q))
unfolding ssalloc_alloc
ssalloc_alloc-IsOwned live p size h pos lt = elim (Bool-cases (ltb 2 p.ssalloc_free_num)) [
  | inl many ↦
      let same_end = IsOwned-reuse live p (ssalloc_alloc p size).0 (ssalloc_alloc p size).1 h in
      let (fine, taken) = ssalloc_alloc-queue p size h.pool (ground arith) in
      inr (same_end fine taken (rw many refl))
  | inr few ↦ elim (Bool-cases (ltb p.ssalloc_size ((p.alloc_next + size) % 2 ^ 64))) [
    | inl full ↦ rw few (rw full (inl (refl, refl)))
    | inr room ↦
        let inside : (p.alloc_next + size) % 2 ^ 64 ≡ p.alloc_next + size =
          omega (arith, h.pool.next_fits, h.pool.size_fits) in
        let here : (p.ssalloc_app_mem + p.alloc_next) % 2 ^ 64 ≡ p.ssalloc_app_mem + p.alloc_next =
          omega (arith, h.pool.next_fits, h.pool.mem_fits) in
        let fine : IsPool (record p { alloc_next = (p.alloc_next + size) % 2 ^ 64 }) = record {
          cur_fits = h.pool.cur_fits;
          num_fits = h.pool.num_fits;
          next_fits = ground (arith, inside);
          size_fits = h.pool.size_fits;
          mem_fits = h.pool.mem_fits;
        } in
        rw few
          (rw room (inr (IsOwned-fresh live p _ _ h fine refl here (omega (arith, inside, here)))))
  ]
]

-- From a pool whose blocks are each in use once or free once, with fewer than 2^16 - 1 free,
-- ssfree_alloc takes back a block in use, and the blocks are again each in use once or free once.
pub ssfree_alloc-IsOwned :
    (live : List Ptr) (p : Pool) (ptr : Ptr)
    → IsOwned (ptr ∷ live) p
    → p.ssalloc_free_num < 2 ^ 16 - 1
    → (ssfree_alloc p ptr ≡ some (pushed p ptr)) × IsOwned live (pushed p ptr)
ssfree_alloc-IsOwned live p ptr h lt =
    let (e, fine, added) = ssfree_alloc-queue p ptr h.pool lt in
    let moved : (a : Ptr) → copies a (queue (pushed p ptr)) ≡ copies a (ptr ∷ queue p) =
      λ a. ap (copies a) added ∙ copies-snoc a (queue p) ptr in
    (
      e,
      record {
        pool = fine;
        once = λ a. ground (arith, moved a, h.once a);
        below = λ a some_copy. ground (arith, moved a, h.below a);
      },
    )

-- With 2^16 - 1 free blocks in the ring, the test for an overflow does not stop the next ssfree_alloc,
-- and the pool forgets all free blocks.
pub ssfree_alloc_forgets :
    (p : Pool) (ptr : Ptr)
    → p.ssalloc_free_num ≡ 2 ^ 16 - 1
    → (ssfree_alloc p ptr ≡ some (pushed p ptr)) × (queue (pushed p ptr) ≡ [])
unfolding ssfree_alloc
ssfree_alloc_forgets p ptr full =
    let none_left : (p.ssalloc_free_num + 1) % 2 ^ 16 ≡ 0 = omega arith in
    let not_seen : (p.ssalloc_free_cur + 1 == 0) ≡ false = ground arith in
    (
      rw not_seen (rw (and_false _) refl),
      ap
          (λ n.
            ring (pushed p ptr).ssalloc_free_list n
              ((p.ssalloc_free_cur + 1) % 2 ^ 16 + 2 ^ 16 - n))
          none_left,
    )
