-- ===== src/Fraser/Insert.antt =====
-- src/skiplist-fraser/fraser.c: the rounds of `fraser_insert` where no other thread gets in between.
use qsense.Prelude.{
  ℕ, zero, suc, ◌+◌, ◌-◌, ◌<◌, ◌≤◌, ◌≡◌, refl, ◌∙◌, true, false, some, List, [], ◌∷◌, ◌==◌, length,
  arith, Bool-cases, inl, inr,
}
use qsense.DoubleLlist.{Ptr}
use qsense.Fraser.{Heap, is_marked, set_next, Found, fraser_search}
use qsense.Fraser.Marks.{idle, Idle, set_next-SameFields}
use qsense.Fraser.Fresh.{linked}
use qsense.Fraser.Update.{Others, fill_levels, onward, Try, link_level, link_levels, insert_loop}

module _ (levelmax tries fuel : ℕ) (head : Ptr) (key : ℕ) (new : Ptr) where
  link_level-Idle :
      (other : Others) (others : List Others) (m : Heap) (preds succs : ℕ → Ptr) (i : ℕ)
      → other ≡ idle
      → is_marked ((m new).next i) ≡ false
      → ((m new).next i == succs i) ≡ true
      → ((m (succs i)).key == key) ≡ false
      → ((m (preds i)).next i == succs i) ≡ true
      → link_level levelmax tries fuel (other ∷ others) m head key new preds succs i
        ≡ some (onward others preds succs (set_next m (preds i) i new))
  unfolding link_level
  link_level-Idle other others m preds succs i quiet even same differ linked_yet =
      rw quiet (rw even (rw same (rw differ (rw linked_yet refl))))

  link_step :
      (others left : List Others) (m m1 : Heap) (preds succs : ℕ → Ptr) (n i : ℕ)
      → link_level levelmax tries fuel others m head key new preds succs i
        ≡ some (onward left preds succs m1)
      → link_levels levelmax tries fuel others m head key new preds succs (suc n) i
        ≡ link_levels levelmax tries fuel left m1 head key new preds succs n (i + 1)
  unfolding link_levels
  link_step others left m m1 preds succs n i e = rw (link_levels, e) refl

  -- The node is linked at each level.
  pub link_levels-Idle :
      (n i : ℕ) (others : List Others) (m : Heap) (preds succs : ℕ → Ptr)
      → Idle others
      → n ≤ length others
      → ((j : ℕ)
          → i ≤ j
          → j < i + n
          → ((m new).next j ≡ succs j)
            × ((m (preds j)).next j ≡ succs j)
            × (is_marked (succs j) ≡ false)
            × (((m (succs j)).key == key) ≡ false))
      → link_levels levelmax tries fuel others m head key new preds succs n i
        ≡ some (linked n i preds new m)
  unfolding link_levels linked
  link_levels-Idle zero i others m preds succs quiet enough ready = refl
  link_levels-Idle (suc n) i [] m preds succs quiet enough ready = absurd (omega (arith, enough))
  link_levels-Idle (suc n) i (other ∷ others) m preds succs (here, quiet) enough ready =
      let (filled, linked_yet, even, differ) = ready i (omega arith) (omega arith) in
      let m1 : Heap = set_next m (preds i) i new in
      link_step (other ∷ others) others m m1 preds succs n i (
        link_level-Idle other others m preds succs i here (rw filled even) (ground (arith, filled))
          differ (ground (arith, linked_yet)))
      ∙ link_levels-Idle n (i + 1) others m1 preds succs quiet (omega (arith, enough))
          (λ j from below.
            (let (filled1, linked1, even1, differ1) =
                ready j (omega (arith, from)) (omega (arith, below)) in
              let above : (i == j) ≡ false = ground (arith, from) in
              let (k, v, d, h) = set_next-SameFields m (preds i) i new (succs j) in
              (
                next_above m (preds i) i j new above ∙ filled1,
                next_above m (preds i) i j (preds j) above ∙ linked1,
                even1,
                rw k differ1,
              )))
    where
      next_above :
          (m : Heap) (a : Ptr) (i j : ℕ) (x : Ptr)
          → (i == j) ≡ false
          → (set_next m a i new x).next j ≡ (m x).next j
      next_above m a i j x above = elim (Bool-cases (a == x)) [
        | inl e ↦ let same : a ≡ x = ground (arith, e) in rw e (rw above (rw same refl))
        | inr e ↦ rw e refl
      ]

  module _ (t : Try) (rounds : List Try) (m : Heap) (f : Found) where
    pub insert_present :
        fraser_search levelmax tries fuel m head key ≡ some f
        → ((f.heap (f.right_list 0)).key == key) ≡ true
        → ((f.heap (f.right_list 0)).deleted == 0) ≡ true
        → insert_loop levelmax tries fuel (t ∷ rounds) m head key new ≡ some (0, true, f.heap)
    unfolding insert_loop
    insert_present e same flag = rw (insert_loop, e) (rw same (rw flag refl))

    pub insert_absent :
        (m4 : Heap)
        → fraser_search levelmax tries fuel m head key ≡ some f
        → ((f.heap (f.right_list 0)).key == key) ≡ false
        → t.before_cas ≡ idle
        → (let m2 = fill_levels f.heap new f.right_list (f.heap new).toplevel in
            (((m2 (f.left_list 0)).next 0 == f.right_list 0) ≡ true)
            × (link_levels levelmax tries fuel t.linking
                  (set_next m2 (f.left_list 0) 0 new)
                  head
                  key
                  new
                  f.left_list
                  f.right_list
                  ((f.heap new).toplevel - 1)
                  1
                ≡ some m4))
        → insert_loop levelmax tries fuel (t ∷ rounds) m head key new ≡ some (1, false, m4)
    unfolding insert_loop
    insert_absent m4 e differ quiet (linked_yet, links) =
        rw (insert_loop, e) (rw differ (rw quiet (rw linked_yet (rw (insert_loop, links) refl))))
