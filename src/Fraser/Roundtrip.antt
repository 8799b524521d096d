-- ===== src/Fraser/Roundtrip.antt =====
-- src/skiplist-fraser/fraser.c: inserting, finding and removing a key.
use qsense.Prelude.{
  ℕ, suc, ◌+◌, ◌<◌, ◌≤◌, ◌≡◌, refl, ◌∙◌, true, false, some, List, [], ◌∷◌, ◌==◌, ltb, ◌^◌, length,
  arith, Bool-cases, inl, inr,
}
use qsense.DoubleLlist.{Ptr}
use qsense.Fraser.{Heap, is_marked, fraser_find}
use qsense.Fraser.Quiet.{IsSkipList, has_key, value_of, fraser_find-value_of}
use qsense.Fraser.Marks.{idle, Idle}
use qsense.Fraser.Update.{Others, Try, fraser_insert, fraser_remove}
use qsense.Fraser.Link.{insert_at}
use qsense.Fraser.Unlinked.{without}
use qsense.Fraser.Height.{get_rand_level, get_rand_level-bounds}
use qsense.Fraser.Fresh.{IsFresh}
use qsense.Fraser.Bind.{fraser_insert-insert_at}
use qsense.Fraser.Unbind.{fraser_remove-without}

length-insert_at :
    (m : Heap) (key : ℕ) (new : Ptr) (ns : List Ptr)
    → length (insert_at m key new ns) ≡ length ns + 1
length-insert_at m key new [] = refl
length-insert_at m key new (a ∷ ns) = elim (Bool-cases (ltb (m a).key key)) [
  | inl less ↦ let ih = length-insert_at m key new ns in rw less (omega (arith, ih))
  | inr more ↦ rw more (omega arith)
]

length-without : (m : Heap) (key : ℕ) (ns : List Ptr) → length (without m key ns) ≤ length ns
length-without m key [] = omega arith
length-without m key (a ∷ ns) = elim (Bool-cases ((m a).key == key)) [
  | inl same ↦ rw same (omega arith)
  | inr other ↦ let ih = length-without m key ns in rw other (omega (arith, ih))
]

-- With fuel for one node more and a round of linking and of marking for each level, on a skip list of
-- fewer than 2^32 levels without the key, whose sentinels are on both sides of it, with an unmarked
-- block that stands nowhere in it and a height that `get_rand_level` draws, and with no other thread in
-- between: an insertion returns 1, a search then returns the value, a removal returns it as well, and a
-- search after that returns 0.
pub fraser_find-fraser_remove :
    (levelmax tries fuel : ℕ) (r : Try) (rounds : List Try) (marking : List Others) (m : Heap)
    (head : Ptr) (ns : List Ptr) (t : Ptr) (key val : ℕ) (new : Ptr) (draws : ℕ → ℕ)
    → IsSkipList levelmax m head ns t
    → length ns + 1 < fuel
    → (m head).key < key
    → key < (m t).key
    → has_key m key ns ≡ false
    → (new == head) ≡ false
    → IsFresh new ns
    → (new == t) ≡ false
    → is_marked new ≡ false
    → levelmax < 2 ^ 32
    → r.before_cas ≡ idle
    → Idle r.linking
    → levelmax ≤ length r.linking
    → Idle marking
    → levelmax ≤ length marking
    → (m1 : Heap) × (m2 : Heap) × (fraser_insert levelmax
          (suc tries)
          fuel
          (r ∷ rounds)
          m
          head
          key
          val
          new
          (get_rand_level levelmax draws)
        ≡ some (1, false, m1))
      × (fraser_find levelmax (suc tries) fuel m1 head key ≡ some (val, m1))
      × (fraser_remove levelmax (suc tries) fuel idle marking m1 head key ≡ some (val, m2))
      × (fraser_find levelmax (suc tries) fuel m2 head key ≡ some (0, m2))
fraser_find-fraser_remove levelmax tries fuel r rounds marking m head ns t key val new draws s short
      low high absent start fresh apart even small quiet calm enough idling lots =
    let (some_level, le) = get_rand_level-bounds levelmax draws s.grounded small in
    let (m1, (e, s1, values, keys)) =
      fraser_insert-insert_at levelmax tries fuel r rounds m head ns t key val new
        (get_rand_level levelmax draws) s (omega (arith, short)) low high start fresh apart even
        some_level le quiet calm enough in
    let ns1 = insert_at m1 key new ns in
    let inserted = rw absent at e in
    let s2 : IsSkipList levelmax m1 head ns1 t = rw absent at s1 in
    let itself : (key == key) ≡ true = ground arith in
    let value : value_of m1 key ns1 ≡ val = (rw absent at (values key)) ∙ rw itself refl in
    let low1 : (m1 head).key < key = rw (keys head start) low in
    let high1 : key < (m1 t).key = rw (keys t apart) high in
    let short1 : length ns1 < fuel = rw (length-insert_at m1 key new ns) short in
    let (m2, removed, s3, values2, keys2) =
      fraser_remove-without levelmax tries fuel marking m1 head ns1 t key s2 short1 low1 high1
        idling lots in
    let fewer = length-without m1 key ns1 in
    (
      m1,
      m2,
      inserted,
      fraser_find-value_of levelmax tries fuel m1 head ns1 t key s2 short1 high1 ∙ rw value refl,
      removed ∙ rw value refl,
      fraser_find-value_of levelmax tries fuel m2 head (without m1 key ns1) t key s3
            (omega (arith, fewer, short1)) (rw (keys2 t) high1)
          ∙ rw (values2 key) (rw itself refl),
    )
