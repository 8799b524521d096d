-- ===== src/Examples/Trees.antt =====
-- The external tree of src/bst-aravind at concrete heaps.
use qsense.Prelude.{ℕ, ◌≡◌, refl, none, some, [], ◌∷◌, arith, ◌==◌, if◌then◌else◌, true, false, ◌⊎◌}
use qsense.Bst.{Heap, inf0, inf1, inf2, bst_insert, bst_remove}
use qsense.Bst.Tree.{Tree, leaf, node, IsRooted, lookup}
use qsense.Bst.Order.{IsValid}
use qsense.Bst.Bind.{IsSpare, quiet, holds, bst_insert-binds}
use qsense.Bst.Unbind.{bst_remove-unbinds}

abbrev empty_heap : Heap
empty_heap a = record { key = 0; value = 0; right = 0; left = 0 }

-- A tree that maps 5 to 7.
abbrev pub m : Heap
m a =
    if a == 8
    then record { key = inf2; value = 0; right = 40; left = 16 }
    else if a == 16
    then record { key = inf1; value = 0; right = 32; left = 48 }
    else if a == 48
    then record { key = inf0; value = 0; right = 24; left = 56 }
    else if a == 56
    then record { key = 5; value = 7; right = 0; left = 0 }
    else if a == 24
    then record { key = inf0; value = 0; right = 0; left = 0 }
    else empty_heap a

abbrev pub t : Tree
t = node 48 (leaf 56) (leaf 24)

pub m-IsRooted : IsRooted m 8 16 t
m-IsRooted = (
  refl,
  (refl, ground arith),
  (
    refl,
    (refl, ground arith),
    (refl, (refl, ground arith), refl, refl),
    (refl, (refl, ground arith), refl, refl),
  ),
  refl,
)

pub m-IsValid : IsValid m 8 16 t
m-IsValid = record {
  rooted = m-IsRooted;
  s_key = refl;
  crowned = (refl, refl);
  proper = (ground arith, ground arith, ground arith, ground arith, tt, tt);
  ordered = (ground arith, ground arith, tt, tt);
  apart = ground arith;
  r_out = (ground arith, ground arith, ground arith);
  s_out = (ground arith, ground arith, ground arith);
}

spare : IsSpare 8 16 64 72 t
spare = record {
  bi_ok = (refl, ground arith);
  bn_ok = (refl, ground arith);
  differ = ground arith;
  bi_out = (ground arith, ground arith, ground arith);
  bn_out = (ground arith, ground arith, ground arith);
  r_old = (ground arith, ground arith);
  s_old = (ground arith, ground arith);
}

bst_insert-binds_example :
    (let result = bst_insert 2 (quiet ∷ []) m false 64 72 9 3 8 in
      ((holds m 9 t ≡ true) × (result ≡ some (false, m)))
      ⊎ ((holds m 9 t ≡ false)
          × ((m1 : Heap) × (t1 : Tree) × (result ≡ some (true, m1))
              × IsValid m1 8 16 t1
              × ((k : ℕ) → lookup m1 k t1 ≡ (if k == 9 then 3 else lookup m k t)))))
bst_insert-binds_example =
    bst_insert-binds m 9 3 8 16 64 72 t 2 [] m-IsValid spare (ground arith) (ground arith)

bst_remove-unbinds_example :
    (let result = bst_remove 2 (quiet ∷ []) m none 5 8 in
      ((holds m 5 t ≡ false) × (result ≡ some (0, m)))
      ⊎ ((holds m 5 t ≡ true)
          × ((m1 : Heap) × (t1 : Tree) × (result ≡ some (lookup m 5 t, m1))
              × IsValid m1 8 16 t1
              × ((k : ℕ) → lookup m1 k t1 ≡ (if k == 5 then 0 else lookup m k t)))))
bst_remove-unbinds_example =
    bst_remove-unbinds m 5 8 16 t 2 [] m-IsValid (ground arith) (ground arith)
