-- ===== src/Fraser/Empty.antt =====
-- src/skiplist-fraser/skiplist.c: a new set is an empty skip list.
use qsense.Prelude.{
  ℕ, zero, suc, ◌+◌, ◌<◌, ◌≡◌, refl, ◌∙◌, true, false, ◌&&◌, [], arith, ◌==◌, ltb, leb,
  if◌then◌else◌, Bool-cases, inl, inr,
}
use qsense.DoubleLlist.{Ptr, null}
use qsense.Keys.{key_min, key_max}
use qsense.Fraser.{
  Heap, is_marked, set_next, sl_new_simple_node, fill_next, sl_new_node, sl_set_new,
}
use qsense.Fraser.Marks.{SameFields, SameFields-trans, set_next-SameFields, set_next-next}
use qsense.Fraser.Quiet.{IsSkipList}

fill_next-next :
    (n i : ℕ) (m : Heap) (a p x : Ptr) (j : ℕ)
    → (fill_next m a p n i x).next j
      ≡ (if leb i j && (ltb j (i + n) && (a == x)) then p else (m x).next j)
unfolding fill_next
fill_next-next zero i m a p x j = ground arith
fill_next-next (suc n) i m a p x j =
    fill_next-next n (i + 1) (set_next m a i p) a p x j
    ∙ rw (set_next-next m a i p x j) (elim (Bool-cases (i == j)) [
      | inl same ↦ let e : i ≡ j = ground (arith, same) in rw e (ground arith)
      | inr other ↦ rw other (ground arith)
    ])

fill_next-SameFields : (n i : ℕ) (m : Heap) (a p x : Ptr) → SameFields (fill_next m a p n i x) (m x)
unfolding fill_next
fill_next-SameFields zero i m a p x = (refl, refl, refl, refl)
fill_next-SameFields (suc n) i m a p x =
    let m1 : Heap = set_next m a i p in
    SameFields-trans (fill_next m1 a p n (i + 1) x) (m1 x) (m x)
      (fill_next-SameFields n (i + 1) m1 a p x) (set_next-SameFields m a i p x)

module _ (levelmax : ℕ) (m : Heap) (block : Ptr) (key val : ℕ) (next : Ptr) where
  sl_new_node-key : (sl_new_node levelmax m block key val next levelmax block).key ≡ key
  unfolding sl_new_node
  sl_new_node-key =
      let (k, v, d, h) =
        fill_next-SameFields levelmax 0 (sl_new_simple_node m block key val levelmax) block next
          block in
      let itself : (block == block) ≡ true = ground arith in k ∙ rw itself refl

  sl_new_node-next :
      (j : ℕ)
      → j < levelmax
      → (sl_new_node levelmax m block key val next levelmax block).next j ≡ next
  unfolding sl_new_node
  sl_new_node-next j lt =
      let itself : (block == block) ≡ true = ground arith in
      let below : ltb j (0 + levelmax) ≡ true = ground (arith, lt) in
      let from : leb 0 j ≡ true = ground arith in
      fill_next-next levelmax 0 (sl_new_simple_node m block key val levelmax) block next block j
      ∙ rw from (rw below (rw itself refl))

  sl_new_node-other :
      (x : Ptr) (j : ℕ)
      → (block == x) ≡ false
      → ((sl_new_node levelmax m block key val next levelmax x).next j ≡ (m x).next j)
        × ((sl_new_node levelmax m block key val next levelmax x).key ≡ (m x).key)
  unfolding sl_new_node
  sl_new_node-other x j other =
      let (k, v, d, h) =
        fill_next-SameFields levelmax 0 (sl_new_simple_node m block key val levelmax) block next
          x in
      (
        fill_next-next levelmax 0 (sl_new_simple_node m block key val levelmax) block next x j
            ∙ rw other (ground arith),
        k ∙ rw other refl,
      )

-- `sl_set_new` makes a skip list without nodes, of its two blocks.
sl_set_new-IsSkipList :
    (levelmax : ℕ) (m : Heap) (max min : Ptr)
    → 0 < levelmax
    → (min == max) ≡ false
    → is_marked max ≡ false
    → IsSkipList levelmax (sl_set_new levelmax m max min).0 (sl_set_new levelmax m max min).1 [] max
unfolding sl_set_new
sl_set_new-IsSkipList levelmax m max min some_level other even =
    let m1 : Heap = sl_new_node levelmax m max key_max 0 null levelmax in
    let (n0, k0) = sl_new_node-other levelmax m1 min key_min 0 max max 0 other in
    record {
      ascends =
          rw (sl_new_node-key levelmax m1 min key_min 0 max)
            (rw k0 (rw (sl_new_node-key levelmax m max key_max 0 null) (omega arith)));
      levels = λ j lt. sl_new_node-next levelmax m1 min key_min 0 max j lt;
      nodes = tt;
      end = even;
      ends = λ j lt.
          (let (n, k) = sl_new_node-other levelmax m1 min key_min 0 max max j other in
            rw n (rw (sl_new_node-next levelmax m max key_max 0 null j lt) refl));
      grounded = some_level;
    }
