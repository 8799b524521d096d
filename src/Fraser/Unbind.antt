-- ===== src/Fraser/Unbind.antt =====
-- src/skiplist-fraser/fraser.c: what `fraser_remove` does to a skip list.
use qsense.Prelude.{
  ℕ, suc, ◌<◌, ◌≤◌, ◌≡◌, refl, ◌∙◌, sym, subst, true, some, List, ◌==◌, ltb, if◌then◌else◌, length,
  arith, Bool-cases, inl, inr,
}
use qsense.DoubleLlist.{Ptr}
use qsense.Fraser.{Heap, Found, nowhere, fraser_search}
use qsense.Fraser.Levels.{is_tall, first_from}
use qsense.Fraser.Search.{below_key, from_key, fraser_search-neighbours}
use qsense.Fraser.Descend.{written}
use qsense.Fraser.Quiet.{alive, value_of, IsSkipList, written-get, fraser_search-quiet}
use qsense.Fraser.Marks.{idle, Idle, mark_node_ptrs-Idle}
use qsense.Fraser.Unlinked.{without}
use qsense.Fraser.Keys.{IsBound, first_from-cases}
use qsense.Fraser.Remove.{flagged, remove_absent, remove_present}
use qsense.Fraser.Cut.{
  doomed, is_doomed, cut, doomed-IsLevel, doomed-Ascends, doomed-end, doomed-head, cut-IsSkipList,
  cut-value_of, cut-keys, doomed-SameShape,
}
use qsense.Fraser.Shapes.{flagged-SameShape, flagged-next}
use qsense.Fraser.Update.{Others, mark_node_ptrs, fraser_remove}

module _ (levelmax tries fuel : ℕ) (marking : List Others) (m : Heap) (head : Ptr) (ns : List Ptr)
    (t : Ptr) (key : ℕ) (s : IsSkipList levelmax m head ns t) (short : length ns < fuel)
    (low : (m head).key < key) (high : key < (m t).key) where
  -- What the search of the key gives.
  abbrev found : Found
  found = record {
    left_list = written levelmax (below_key m alive key t head ns) nowhere;
    right_list = written levelmax (from_key m alive key t head ns) nowhere;
    heap = m;
  }

  search_found : fraser_search levelmax (suc tries) fuel m head key ≡ some found
  search_found =
      fraser_search-quiet levelmax tries fuel m head ns t key s short (omega (arith, high))

  -- The node at the lowest level.
  right_lem : found.right_list 0 ≡ first_from m alive key 0 ns t
  right_lem =
      let above : ltb 0 levelmax ≡ true = ground (arith, s.grounded) in
      written-get levelmax (from_key m alive key t head ns) nowhere 0 ∙ rw above refl

  module _ (quiet : Idle marking) (enough : levelmax ≤ length marking)
      (b : IsBound levelmax m key ns t (found.right_list 0)) where
    abbrev victim : Ptr
    victim = found.right_list 0

    mark_victim :
        mark_node_ptrs marking (flagged m victim) victim (flagged m victim victim).toplevel
        ≡ some (doomed levelmax m head ns t key victim s b low high)
    mark_victim =
        let (k, v, h) = flagged-SameShape m victim victim in
        let (even, flag, some_level, le) = b.node in
        rw h (
          mark_node_ptrs-Idle (m victim).toplevel marking (flagged m victim) victim quiet
            (omega (arith, le, enough))
            (λ i below.
              (let tall : is_tall m i victim ≡ true = ground (arith, below) in
                rw (flagged-next m victim victim i)
                  (b.marks i ((m head).next i) tall (s.levels i (omega (arith, below, le)))))))

    remove_victim :
        fraser_remove levelmax (suc tries) fuel idle marking m head key
        ≡ some (value_of m key ns, cut levelmax m head ns t key victim s b low high)
    remove_victim =
        let d : Heap = doomed levelmax m head ns t key victim s b low high in
        let dead = is_doomed levelmax m head ns t key victim s b low high in
        let (even, flag, some_level, le) = b.node in
        let (k, v, h) = doomed-SameShape levelmax m head ns t key victim s b low high victim in
        let (kt, vt, ht) = doomed-SameShape levelmax m head ns t key victim s b low high t in
        remove_present levelmax (suc tries) fuel marking m head key found d
          (record {
            left_list = written levelmax (below_key d dead key t head ns) nowhere;
            right_list = written levelmax (from_key d dead key t head ns) nowhere;
            heap = cut levelmax m head ns t key victim s b low high;
          })
          search_found (ground (arith, b.the_key)) (ground (arith, flag)) mark_victim
          (fraser_search-neighbours d dead key t head ns levelmax tries fuel
            (doomed-Ascends levelmax m head ns t key victim s b low high)
            (doomed-IsLevel levelmax m head ns t key victim s b low high)
            (doomed-head levelmax m head ns t key victim s b low high)
            (doomed-end levelmax m head ns t key victim s b low high) short
            (rw kt (omega (arith, high))))
        ∙ rw v (rw b.the_val refl)

  -- On a skip list with sentinels on both sides of the key, with more fuel than nodes and a round of marking
  -- for each level, a removal that no other thread gets in between of returns the value of the key, or 0, and leaves a skip
  -- list without the key in which every other key has the value it had. Nodes keep their keys.
  pub fraser_remove-without :
      Idle marking
      → levelmax ≤ length marking
      → (m1 : Heap) × (fraser_remove levelmax (suc tries) fuel idle marking m head key
          ≡ some (value_of m key ns, m1))
        × IsSkipList levelmax m1 head (without m key ns) t
        × ((other : ℕ)
            → value_of m1 other (without m key ns)
              ≡ (if other == key then 0 else value_of m other ns))
        × ((x : Ptr) → (m1 x).key ≡ (m x).key)
  fraser_remove-without quiet enough =
      elim (first_from-cases m key t levelmax ns (m head).key s.nodes s.ascends high) [
        | inl (differ, same, none_of, are) ↦ (
          m,
          remove_absent levelmax (suc tries) fuel marking m head key found search_found
                (rw right_lem differ)
              ∙ rw none_of refl,
          rw same s,
          rw same (λ other. elim (Bool-cases (other == key)) [
            | inl e ↦ let f : other ≡ key = ground (arith, e) in rw e (rw f none_of)
            | inr e ↦ rw e refl
          ]),
          λ x. refl,
        )
        | inr b ↦
            let c = subst (λ n. IsBound levelmax m key ns t n) (sym right_lem) b in
            (
              cut levelmax m head ns t key (found.right_list 0) s c low high,
              remove_victim quiet enough c,
              cut-IsSkipList levelmax m head ns t key (found.right_list 0) s c low high,
              cut-value_of levelmax m head ns t key (found.right_list 0) s c low high,
              cut-keys levelmax m head ns t key (found.right_list 0) s c low high,
            )
      ]
