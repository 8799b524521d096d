-- ===== src/Examples/Pruned.antt =====
-- The external tree over quiescent states, at a concrete heap.
use qsense.Prelude.{ℕ, ◌≡◌, refl, none, some, [], ◌∷◌, arith, ◌==◌, if◌then◌else◌}
use qsense.DoubleLlist.{Ptr}
use qsense.Qsbr.{link_wrapper}
use qsense.Harris.Qsbr.Retire.{plenty}
use qsense.Bst.{Heap}
use qsense.Bst.Loss.{Loses}
use qsense.Bst.Tree.{Tree, lookup}
use qsense.Bst.Order.{IsValid}
use qsense.Bst.Qsbr.{bst_remove}
use qsense.Bst.Qsbr.Removal.{quiet_try, bst_remove-links_two}
use qsense.Examples.Reclaimed.{wrapper, q}
use qsense.Examples.Trees.{m, t, m-IsValid}

bst_remove-links_two_example :
    (m1 : Heap) × (t1 : Tree) × (freed : Ptr) × (above : Ptr) × (bst_remove
        (plenty wrapper)
        0
        2
        (quiet_try ∷ [])
        none
        5
        8
        (m, q)
      ≡ some (
        lookup m 5 t,
        (m1, link_wrapper (link_wrapper q 0 freed (wrapper freed)) 0 above (wrapper above)),
      ))
    × ((m freed).key ≡ 5)
    × Loses t t1 freed above
    × IsValid m1 8 16 t1
    × ((k : ℕ) → lookup m1 k t1 ≡ (if k == 5 then 0 else lookup m k t))
bst_remove-links_two_example =
    bst_remove-links_two wrapper 0 2 [] m 5 8 16 t q m-IsValid (ground arith) (ground arith) refl
