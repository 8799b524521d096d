-- ===== src/Fraser/Remove.antt =====
-- src/skiplist-fraser/fraser.c: `fraser_remove` where no other thread gets in between.
use qsense.Prelude.{ℕ, ◌+◌, ◌%◌, ◌^◌, ◌≡◌, refl, true, false, some, List, ◌==◌, put}
use qsense.DoubleLlist.{Ptr}
use qsense.Fraser.{Heap, Found, fraser_search}
use qsense.Fraser.Marks.{idle}
use qsense.Fraser.Update.{Others, mark_node_ptrs, fraser_remove}

-- The node `n` with its flag set.
abbrev pub flagged : Heap → Ptr → Heap
flagged m n = put m n (record (m n) { deleted = ((m n).deleted + 1) % 2 ^ 32 })

module _ (levelmax tries fuel : ℕ) (marking : List Others) (m : Heap) (head : Ptr) (key : ℕ)
    (f : Found) where
  pub remove_absent :
      fraser_search levelmax tries fuel m head key ≡ some f
      → ((f.heap (f.right_list 0)).key == key) ≡ false
      → fraser_remove levelmax tries fuel idle marking m head key ≡ some (0, f.heap)
  unfolding fraser_remove
  remove_absent e differ = rw (fraser_remove, e) (rw differ refl)

  pub remove_present :
      (m4 : Heap) (g : Found)
      → fraser_search levelmax tries fuel m head key ≡ some f
      → ((f.heap (f.right_list 0)).key == key) ≡ true
      → ((f.heap (f.right_list 0)).deleted == 0) ≡ true
      → (let m3 = flagged f.heap (f.right_list 0) in
          mark_node_ptrs marking m3 (f.right_list 0) (m3 (f.right_list 0)).toplevel ≡ some m4)
      → fraser_search levelmax tries fuel m4 head key ≡ some g
      → fraser_remove levelmax tries fuel idle marking m head key
        ≡ some ((m4 (f.right_list 0)).val, g.heap)
  unfolding fraser_remove
  remove_present m4 g e same flag marks e2 =
      rw (fraser_remove, e)
        (rw same (rw flag (rw (fraser_remove, marks) (rw (fraser_remove, e2) refl))))
