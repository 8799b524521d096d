-- ===== src/Fraser/Bind.antt =====
-- src/skiplist-fraser/fraser.c: what `fraser_insert` does to a skip list.
use qsense.Prelude.{
  ℕ, suc, ◌<◌, ◌≤◌, ◌≡◌, refl, ◌∙◌, true, false, not, ◌&&◌, some, List, ◌∷◌, ◌==◌, if◌then◌else◌,
  length, arith,
}
use qsense.DoubleLlist.{Ptr}
use qsense.Fraser.{Heap, is_marked, sl_new_simple_node}
use qsense.Fraser.Quiet.{IsNode, value_of, has_key, IsSkipList}
use qsense.Fraser.Marks.{idle, Idle}
use qsense.Fraser.Link.{insert_at}
use qsense.Fraser.Fresh.{IsFresh, IsSkipList-fresh, value_of-fresh, has_key-fresh}
use qsense.Fraser.Update.{Try, insert_loop, fraser_insert}
use qsense.Fraser.Add.{insert_loop-binds}

module _ (levelmax tries fuel : ℕ) (r : Try) (rounds : List Try) (m : Heap) (head : Ptr)
    (ns : List Ptr) (t : Ptr) (key val : ℕ) (new : Ptr) (top : ℕ) where
  unfolded :
      fraser_insert levelmax tries fuel (r ∷ rounds) m head key val new top
      ≡ insert_loop levelmax tries fuel
          (r ∷ rounds)
          (sl_new_simple_node m new key val top)
          head
          key
          new
  unfolding fraser_insert
  unfolded = refl

  simple_node_other : (x : Ptr) → (new == x) ≡ false → sl_new_simple_node m new key val top x ≡ m x
  simple_node_other x other = rw other refl

  -- The node that has been made.
  simple_node_lem :
      (even : is_marked new ≡ false)
      → 0 < top
      → top ≤ levelmax
      → IsNode levelmax (sl_new_simple_node m new key val top) new
        × ((sl_new_simple_node m new key val top new).key ≡ key)
        × ((sl_new_simple_node m new key val top new).val ≡ val)
  simple_node_lem even some_level le =
      let itself : (new == new) ≡ true = ground arith in
      rw itself ((even, refl, some_level, le), refl, refl)

  -- An insertion that no other thread gets in between of, on a skip list with sentinels on both sides
  -- of the key and more fuel than nodes, with an unmarked block that stands nowhere in it, a height
  -- from 1 to `levelmax`, and a round of linking for each level. If the key is absent it returns 1 and
  -- keeps the node, otherwise it returns 0 and gives the node back. It leaves a skip list, with the new
  -- node at the place of its key if the key was absent; the key then has the value, and every other key
  -- the one it had. Other nodes keep their keys.
  pub fraser_insert-insert_at :
      IsSkipList levelmax m head ns t
      → length ns < fuel
      → (m head).key < key
      → key < (m t).key
      → (new == head) ≡ false
      → IsFresh new ns
      → (new == t) ≡ false
      → is_marked new ≡ false
      → 0 < top
      → top ≤ levelmax
      → r.before_cas ≡ idle
      → Idle r.linking
      → levelmax ≤ length r.linking
      → (m1 : Heap) × (let has = has_key m key ns in
          let ns1 = if has then ns else insert_at m1 key new ns in
          (fraser_insert levelmax (suc tries) fuel (r ∷ rounds) m head key val new top
            ≡ some (if has then 0 else 1, has, m1))
          × IsSkipList levelmax m1 head ns1 t
          × ((other : ℕ)
              → value_of m1 other ns1
                ≡ (if not has && (other == key) then val else value_of m other ns))
          × ((x : Ptr) → (new == x) ≡ false → (m1 x).key ≡ (m x).key))
  unfolding fraser_insert
  fraser_insert-insert_at s short low high start fresh apart even some_level le quiet calm enough =
      let m0 : Heap = sl_new_simple_node m new key val top in
      let (is, the_key, the_val) = simple_node_lem even some_level le in
      let at_head = simple_node_other head start in
      let at_end = simple_node_other t apart in
      let (m1, (e, s1, values, keys)) =
        insert_loop-binds levelmax tries fuel r rounds m0 head ns t key new
          (IsSkipList-fresh m m0 new simple_node_other levelmax head ns t start fresh apart s) short
          (rw at_head low) (rw at_end high) start fresh apart is the_key quiet calm enough in
      let same = has_key-fresh m m0 new simple_node_other key ns fresh in
      (
        m1,
        (
          rw same at e,
          rw same at s1,
          λ other.
              (rw same at (values other))
              ∙ rw the_val (rw (value_of-fresh m m0 new simple_node_other other ns fresh) refl),
          λ x other. keys x ∙ rw other refl,
        ),
      )
