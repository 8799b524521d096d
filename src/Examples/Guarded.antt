-- ===== src/Examples/Guarded.antt =====
-- The external tree over the hybrid scheme, at a concrete heap.
use qsense.Prelude.{ℕ, ◌*◌, ◌≡◌, refl, some, none, List, [], ◌∷◌, arith, ◌==◌, if◌then◌else◌, put}
use qsense.DoubleLlist.{Ptr}
use qsense.Hybrid.State.{Hybrid, k}
use qsense.Harris.Qsense.{set_hp, retire}
use qsense.Bst
use qsense.Bst.{Heap, SeekRecord}
use qsense.Bst.Loss.{Loses}
use qsense.Bst.Tree.{Tree, lookup}
use qsense.Bst.Order.{IsValid}
use qsense.Bst.Hazard
use qsense.Bst.Hazard.{World, Others}
use qsense.Bst.Hazard.Held.{IsProtected}
use qsense.Bst.Hazard.Quiet.{quiet_stages}
use qsense.Bst.Hazard.Retire.{quiet}
use qsense.Bst.Qsense.{bst_seek, bst_search, bst_remove}
use qsense.Bst.Qsense.Search.{bst_seek-IsProtected, bst_search-quiet_lookup, bst_remove-retires_two}
use qsense.Examples.Reclaim.{clock, wrapper, now, s}
use qsense.Examples.Trees.{m, t, m-IsRooted, m-IsValid}

-- Another thread puts the leaf 64 with key 6 and its parent 72 below the root of the tree while the seek
-- looks at that root's edge.
abbrev intrude : Others Hybrid
intrude w = (
  put
      (put (put w.0 64 (record { key = 6; value = 1; right = 0; left = 0 })) 72
        (record { key = 6; value = 0; right = 64; left = 56 }))
      48 (record (w.0 48) { left = 72 }),
  w.1,
)

abbrev stages : List (Others Hybrid)
stages = (λ w. w) ∷ (intrude ∷ quiet_stages 6)

abbrev fallen : SeekRecord × World Hybrid
fallen = (record { ancestor = 0; successor = 0; parent = 0; leaf = 0 }, (m, s))

returned : SeekRecord × World Hybrid
returned = elim (bst_seek clock wrapper now 0 stages 6 8 (m, s)) [ none ↦ fallen | some x ↦ x ]

returns : bst_seek clock wrapper now 0 stages 6 8 (m, s) ≡ some (returned.0, returned.1)
unfolding bst_seek Hazard.bst_seek Hazard.seek_stages returned
returns = refl

returned_leaf : (returned.0).leaf ≡ 64
unfolding bst_seek Hazard.bst_seek Hazard.seek_stages returned
returned_leaf = refl

bst_seek-IsProtected_example :
    IsProtected set_hp (retire clock wrapper now 0) (k * 0) (λ u. u.hp) returned.0 returned.1.1
bst_seek-IsProtected_example =
    bst_seek-IsProtected clock wrapper now 0 stages 6 8 (m, s) returned.0 returned.1
      (
        λ w i lt. refl,
        (
          λ w i lt. refl,
          (
            λ w i lt. refl,
            (
              λ w i lt. refl,
              (λ w i lt. refl, (λ w i lt. refl, (λ w i lt. refl, (λ w i lt. refl, tt)))),
            ),
          ),
        ),
      )
      refl returns

bst_search-quiet_lookup_example :
    (s1 : Hybrid) × (bst_search clock wrapper now 0 (quiet_stages 4) 5 8 (m, s)
      ≡ some (lookup m 5 t, (m, s1)))
    × (Bst.bst_search 2 m 5 8 ≡ some (lookup m 5 t))
    × (s1.td ≡ s.td)
bst_search-quiet_lookup_example =
    bst_search-quiet_lookup clock wrapper now 0 2 m 5 8 16 t s m-IsRooted (ground arith)
      (ground arith)

bst_remove-retires_two_example :
    (m1 : Heap) × (t1 : Tree) × (s1 : Hybrid) × (freed : Ptr) × (above : Ptr) × (bst_remove clock
        wrapper now 0
        (quiet set_hp (retire clock wrapper now 0) (k * 0) 2 ∷ [])
        none
        5
        8
        (m, s)
      ≡ some (
        lookup m 5 t,
        (m1, retire clock wrapper now 0 above (retire clock wrapper now 0 freed s1)),
      ))
    × (s1.td ≡ s.td)
    × ((m freed).key ≡ 5)
    × Loses t t1 freed above
    × IsValid m1 8 16 t1
    × ((j : ℕ) → lookup m1 j t1 ≡ (if j == 5 then 0 else lookup m j t))
bst_remove-retires_two_example =
    bst_remove-retires_two clock wrapper now 0 2 [] m 5 8 16 t s m-IsValid (ground arith)
      (ground arith) refl
