-- ===== src/Harris.antt =====
-- src/linkedlist-harris: harris_opt.c, intset.c and linkedlist.c, Harris' list without reclamation.
pub mod Find
pub mod Agree
pub mod Walk
pub mod Search
pub mod Hazard
pub mod Qsense
pub mod Hp
pub mod Qsbr
use qsense.Prelude.{
  ℕ, zero, suc, ◌+◌, ◌-◌, ◌^◌, ◌%◌, Bool, true, false, not, ◌&&◌, Option, none, some, List, [], ◌∷◌,
  ◌==◌, ltb, leb, if◌then◌else◌, put,
}
use qsense.DoubleLlist.{Ptr, null}
use qsense.Keys.{key_min, key_max}

-- `struct node`; `next` is an address whose lowest bit is the mark.
pub record Node : Type 0 where
  pub key : ℕ
  pub val : ℕ
  pub next : ℕ

abbrev pub Heap : Type 0
Heap = Ptr → Node

-- `set_new`, with the blocks of its two sentinels: the heap and `set->head`.
unfoldable pub set_new : Heap → (max min : Ptr) → Heap × Ptr
set_new m max min =
    let m1 = put m max (record { key = key_max; val = 0; next = null }) in
    (put m1 min (record { key = key_min; val = 0; next = max }), min)

abbrev pub is_marked_ref : ℕ → Bool
is_marked_ref i = i % 2 == 1

abbrev pub get_unmarked_ref : ℕ → Ptr
get_unmarked_ref w = w - w % 2

abbrev pub get_marked_ref : ℕ → ℕ
get_marked_ref w = w - w % 2 + 1

abbrev pub set_next : Heap → Ptr → ℕ → Heap
set_next m a r = put m a (record (m a) { next = r })

-- `CAS_PTR(&a->next, old, new)` returns what it has read.
abbrev pub cas_next : Heap → Ptr → (old new : ℕ) → ℕ × Heap
cas_next m a old new = ((m a).next, if (m a).next == old then set_next m a new else m)

abbrev pub physical_delete_right : Heap → (left_node right_node : Ptr) → Bool × Heap
physical_delete_right m left_node right_node =
    let (res, m1) = cas_next m left_node right_node (get_unmarked_ref (m right_node).next) in
    (res == right_node, m1)

-- The loop of `list_search`, on fuel: `left_node`, the node returned, and the heap.
unfoldable pub search_loop :
    ℕ → Heap → (key : ℕ) → (left_node right_node : Ptr) → Option (Ptr × Ptr × Heap)
search_loop zero m key left_node right_node = none
search_loop (suc fuel) m key left_node right_node =
    let right_next = (m right_node).next in
    let m1 = (physical_delete_right m left_node right_node).1 in
    let onward = search_loop fuel m key right_node (get_unmarked_ref right_next) in
    let around = search_loop fuel m1 key left_node (get_unmarked_ref (m1 right_node).next) in
    if not (is_marked_ref right_next)
    then (if leb key (m right_node).key then some (left_node, right_node, m) else onward)
    else around

unfoldable pub list_search : ℕ → Heap → (head : Ptr) → (key : ℕ) → Option (Ptr × Ptr × Heap)
list_search fuel m head key = search_loop fuel m key head (m head).next

-- The loop of `harris_find`: the node that it stops at.
unfoldable pub find_loop : ℕ → Heap → (key : ℕ) → Ptr → Option Ptr
find_loop zero m key node = none
find_loop (suc fuel) m key node =
    let rest = find_loop fuel m key (get_unmarked_ref (m node).next) in
    if ltb (m node).key key then rest else some node

unfoldable pub harris_find : ℕ → Heap → (head : Ptr) → (key : ℕ) → Option ℕ
harris_find fuel m head key = elim (find_loop fuel m key (m head).next) [
  | none ↦ none
  | some node ↦
      some (if ((m node).key == key) && not (is_marked_ref (m node).next) then (m node).val else 0)
]

-- `harris_insert`, with the block that `new_node` gets in each round and what the others do before the
-- CAS. No result is a fuel that is too small or more rounds than `tries` has.
unfoldable pub harris_insert :
    ℕ → List (Ptr × (Heap → Heap)) → Heap → (head : Ptr) → (key val : ℕ) → Option (ℕ × Heap)
harris_insert fuel [] m head key val = none
harris_insert fuel ((block, other) ∷ tries) m head key val = elim (list_search fuel m head key) [
  | none ↦ none
  | some (left_node, right_node, m1) ↦
      let m2 = other (put m1 block (record { key = key; val = val; next = right_node })) in
      let (res, m3) = cas_next m2 left_node right_node block in
      let again = harris_insert fuel tries m3 head key val in
      if (m1 right_node).key == key
      then some (0, m1)
      else if res == right_node
      then some (1, m3)
      else again
]

-- `harris_delete`, with what the others do between the search and the CAS of each round.
unfoldable pub harris_delete :
    ℕ → List (Heap → Heap) → Heap → (head : Ptr) → (key : ℕ) → Option (ℕ × Heap)
harris_delete fuel [] m head key = none
harris_delete fuel (other ∷ others) m head key = elim (list_search fuel m head key) [
  | none ↦ none
  | some (left_node, right_node, m1) ↦
      let m2 = other m1 in
      let unmarked_ref = get_unmarked_ref (m2 right_node).next in
      let (cas_result, m3) = cas_next m2 right_node unmarked_ref (get_marked_ref unmarked_ref) in
      let again = harris_delete fuel others m3 head key in
      let (removed, m4) = physical_delete_right m3 left_node right_node in
      let ret = (m3 right_node).val in
      let cleaned : Option (ℕ × Heap) = elim (list_search fuel m4 head key) [
        | none ↦ none
        | some (_, _, m5) ↦ some (ret, m5)
      ] in
      if not ((m1 right_node).key == key)
      then some (0, m1)
      else if cas_result == unmarked_ref
      then (if removed then some (ret, m4) else cleaned)
      else again
]

-- The loop of `set_size`.
unfoldable pub size_loop : ℕ → Heap → Ptr → ℕ → Option ℕ
size_loop zero m node size = none
size_loop (suc fuel) m node size =
    let next = (m node).next in
    let rest =
      size_loop fuel m (get_unmarked_ref next) (if is_marked_ref next then size else size + 1) in
    if get_unmarked_ref next == null then some size else rest

unfoldable pub set_size : ℕ → Heap → (head : Ptr) → Option ℕ
set_size fuel m head = size_loop fuel m (get_unmarked_ref (m head).next) 0
