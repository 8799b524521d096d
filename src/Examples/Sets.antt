-- ===== src/Examples/Sets.antt =====
-- src/linkedlist-harris at a concrete heap.
use qsense.Prelude.{ℕ, ◌<◌, ◌≤◌, ◌≡◌, refl, true, some, [], ◌∷◌, arith, ◌==◌, if◌then◌else◌}
use qsense.DoubleLlist.{Ptr}
use qsense.Keys.{key_max}
use qsense.Harris.{Node, Heap, list_search, harris_find, find_loop, set_size, size_loop}
use qsense.Harris.Find.{IsChain, is_live, value_of}
use qsense.Harris.Agree.{swept}
use qsense.Harris.Search.{list_search-neighbours}

abbrev node : (key val next : ℕ) → Node
node key val next = record { key = key; val = val; next = next }

-- Head 10, then key 5 at 20, key 7 at 30, which is deleted, key 9 at 40, and the last sentinel at 50.
abbrev m : Heap
m a =
    if a == 10
    then node 0 0 20
    else if a == 20
    then node 5 55 30
    else if a == 30
    then node 7 77 41
    else if a == 40
    then node 9 99 50
    else node key_max 0 0

finds : harris_find 4 m 10 9 ≡ some 99
unfolding harris_find find_loop
finds = refl

counts : set_size 5 m 10 ≡ some 2
unfolding set_size size_loop
counts = refl

list_search-neighbours_example :
    (l1 : Ptr) × (r1 : Ptr) × (m1 : Heap) × (list_search 4 m 10 8 ≡ some (l1, r1, m1))
    × ((m1 l1).next ≡ r1)
    × ((m1 l1).key < 8)
    × (8 ≤ (m1 r1).key)
    × (is_live m1 r1 ≡ true)
    × IsChain m1 (m1 10).next (swept m 8 (20 ∷ 30 ∷ 40 ∷ [])) 50
    × ((k : ℕ) → value_of m1 k (swept m 8 (20 ∷ 30 ∷ 40 ∷ [])) ≡ value_of m k (20 ∷ 30 ∷ 40 ∷ []))
list_search-neighbours_example =
    list_search-neighbours m 10 8 (20 ∷ 30 ∷ 40 ∷ []) 50 4 refl (refl, (refl, (refl, refl)))
      (omega arith, (omega arith, (omega arith, tt))) (omega arith) (omega arith) refl (omega arith)
