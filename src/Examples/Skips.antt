-- ===== src/Examples/Skips.antt =====
-- Skip lists: tests and concrete instances of their theorems.
use qsense.Prelude.{
  ℕ, zero, suc, ◌<◌, ◌≡◌, refl, Bool, false, some, List, [], ◌∷◌, ◌==◌, if◌then◌else◌, not, ◌&&◌,
  arith, put,
}
use qsense.DoubleLlist.{Ptr}
use qsense.Fraser.{Heap, nowhere, fraser_find, fraser_search, descend, find_pair}
use qsense.Fraser.Quiet.{IsSkipList, alive, has_key, value_of}
use qsense.Fraser.Levels.{IsLevel}
use qsense.Fraser.Marks.{idle}
use qsense.Fraser.Update.{Others, Try, fraser_insert, fraser_remove}
use qsense.Fraser.Height.{get_rand_level, level_loop}
use qsense.Fraser.Roundtrip.{fraser_find-fraser_remove}
use qsense.Fraser.Search.{below_key, from_key, fraser_search-neighbours}
use qsense.Fraser.Descend.{written, unlinked}
use qsense.Fraser.Link.{insert_at}
use qsense.Fraser.Unlinked.{without}
use qsense.Fraser.Bind.{fraser_insert-insert_at}
use qsense.Fraser.Unbind.{fraser_remove-without}

-- Sentinels at 16 and 32, the keys 5 on two levels and 9 on one.
abbrev blank : Heap
blank a = record { key = 0; val = 0; deleted = 0; toplevel = 0; next = λ i. 0 }

abbrev skips : Heap
skips a =
    if a == 16
    then record { key = 1; val = 0; deleted = 0; toplevel = 2; next = λ i. 48 }
    else if a == 32
    then record { key = 100; val = 0; deleted = 0; toplevel = 2; next = λ i. 0 }
    else if a == 48
    then record {
      key = 5;
      val = 50;
      deleted = 0;
      toplevel = 2;
      next = λ i. if i == 0 then 64 else 32;
    }
    else if a == 64
    then record { key = 9; val = 90; deleted = 0; toplevel = 1; next = λ i. 32 }
    else blank a

abbrev pub in_order : List Ptr
in_order = 48 ∷ 64 ∷ []

abbrev none_else : List Others
none_else = idle ∷ idle ∷ []

abbrev calm_try : Try
calm_try = record { before_cas = idle; marking = none_else; linking = none_else }

skips-levels : (j : ℕ) → j < 2 → IsLevel skips alive j ((skips 16).next j) in_order 32
skips-levels zero lt = (refl, refl, (refl, refl, refl))
skips-levels (suc zero) lt = (refl, refl, refl)
skips-levels (suc (suc j)) lt = absurd (omega (arith, lt))

skips-IsSkipList : IsSkipList 2 skips 16 in_order 32
skips-IsSkipList = record {
  ascends = (omega arith, (omega arith, omega arith));
  levels = skips-levels;
  nodes = ((refl, refl, omega arith, omega arith), ((refl, refl, omega arith, omega arith), tt));
  end = refl;
  ends = λ j lt. refl;
  grounded = omega arith;
}

finds : fraser_find 2 1 3 skips 16 9 ≡ some (90, skips)
unfolding fraser_find fraser_search descend find_pair
finds = refl

fraser_remove-without_example :
    (m1 : Heap) × (fraser_remove 2 1 3 idle none_else skips 16 5
      ≡ some (value_of skips 5 in_order, m1))
    × IsSkipList 2 m1 16 (without skips 5 in_order) 32
    × ((other : ℕ)
        → value_of m1 other (without skips 5 in_order)
          ≡ (if other == 5 then 0 else value_of skips other in_order))
    × ((x : Ptr) → (m1 x).key ≡ (skips x).key)
fraser_remove-without_example =
    fraser_remove-without 2 0 3 none_else skips 16 in_order 32 5 skips-IsSkipList (omega arith)
      (omega arith) (omega arith) (refl, (refl, tt)) (omega arith)

fraser_insert-insert_at_example :
    (m1 : Heap) × (let has = has_key skips 7 in_order in
      let ns1 = if has then in_order else insert_at m1 7 80 in_order in
      (fraser_insert 2 1 3 (calm_try ∷ []) skips 16 7 70 80 2
        ≡ some (if has then 0 else 1, has, m1))
      × IsSkipList 2 m1 16 ns1 32
      × ((other : ℕ)
          → value_of m1 other ns1
            ≡ (if not has && (other == 7) then 70 else value_of skips other in_order))
      × ((x : Ptr) → (80 == x) ≡ false → (m1 x).key ≡ (skips x).key))
fraser_insert-insert_at_example =
    fraser_insert-insert_at 2 0 3 calm_try [] skips 16 in_order 32 7 70 80 2 skips-IsSkipList
      (omega arith) (omega arith) (omega arith) refl (refl, (refl, tt)) refl refl (omega arith)
      (omega arith) refl (refl, (refl, tt)) (omega arith)

-- A first draw below 50, and a second above.
abbrev draws : ℕ → ℕ
draws i = if i == 0 then 20 else 77

climbs : get_rand_level 5 draws ≡ 2
unfolding get_rand_level level_loop
climbs = refl

fraser_find-fraser_remove_example :
    (m1 : Heap) × (m2 : Heap) × (fraser_insert 2 1 4
        (calm_try ∷ [])
        skips
        16
        7
        70
        80
        (get_rand_level 2 draws)
      ≡ some (1, false, m1))
    × (fraser_find 2 1 4 m1 16 7 ≡ some (70, m1))
    × (fraser_remove 2 1 4 idle none_else m1 16 7 ≡ some (70, m2))
    × (fraser_find 2 1 4 m2 16 7 ≡ some (0, m2))
fraser_find-fraser_remove_example =
    fraser_find-fraser_remove 2 0 4 calm_try [] none_else skips 16 in_order 32 7 70 80 draws
      skips-IsSkipList (omega arith) (omega arith) (omega arith) refl refl (refl, (refl, tt)) refl
      refl (omega arith) refl (refl, (refl, tt)) (omega arith) (refl, (refl, tt)) (omega arith)

-- The same list with the node of key 5 deleted.
abbrev pub is_48 : Ptr → Bool
is_48 a = a == 48

abbrev pub half_removed : Heap
half_removed =
    put skips 48 (record {
      key = 5;
      val = 50;
      deleted = 1;
      toplevel = 2;
      next = λ i. if i == 0 then 65 else 33;
    })

pub half_removed-levels :
    (j : ℕ) → j < 2 → IsLevel half_removed is_48 j ((half_removed 16).next j) in_order 32
half_removed-levels zero lt = (refl, refl, (refl, refl, refl))
half_removed-levels (suc zero) lt = (refl, refl, refl)
half_removed-levels (suc (suc j)) lt = absurd (omega (arith, lt))

fraser_search-neighbours_example :
    fraser_search 2 1 3 half_removed 16 9
    ≡ some (record {
      left_list = written 2 (below_key half_removed is_48 9 32 16 in_order) nowhere;
      right_list = written 2 (from_key half_removed is_48 9 32 16 in_order) nowhere;
      heap =
          unlinked 2
            (below_key half_removed is_48 9 32 16 in_order)
            (from_key half_removed is_48 9 32 16 in_order)
            half_removed;
    })
fraser_search-neighbours_example =
    fraser_search-neighbours half_removed is_48 9 32 16 in_order 2 0 3
      (omega arith, (omega arith, omega arith)) half_removed-levels (λ j lt. refl) (λ j lt. refl)
      (omega arith) (omega arith)
