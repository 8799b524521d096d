-- ===== src/Fraser.antt =====
-- src/skiplist-fraser: Fraser's skip list without reclamation. A pointer of a node is an address whose lowest
-- bit is the mark, one for each level.
pub mod Update
pub mod Levels
pub mod Below
pub mod Search
pub mod Descend
pub mod Quiet
pub mod Keys
pub mod Hazard
pub mod Qsbr
pub mod Set
pub mod Height
pub mod Empty
pub mod Roundtrip
pub mod Bind
pub mod Add
pub mod Grow
pub mod Insert
pub mod Fresh
pub mod Link
pub mod Unbind
pub mod Cut
pub mod Shapes
pub mod Remove
pub mod Unlink
pub mod Unlinked
pub mod Marks
use qsense.Prelude.{
  ℕ, zero, suc, ◌+◌, ◌-◌, ◌%◌, ◌^◌, Bool, true, false, not, ◌&&◌, Option, none, some, List, [], ◌∷◌,
  ◌==◌, ltb, leb, if◌then◌else◌, put,
}
use qsense.DoubleLlist.{Ptr, null}
use qsense.Keys.{key_min, key_max}

-- `struct sl_node`.
pub record Node : Type 0 where
  pub key : ℕ
  pub val : ℕ
  pub deleted : ℕ
  pub toplevel : ℕ
  pub next : ℕ → ℕ

abbrev pub Heap : Type 0
Heap = Ptr → Node

abbrev pub is_marked : ℕ → Bool
is_marked p = p % 2 == 1

abbrev pub get_unmarked : ℕ → Ptr
get_unmarked p = p - p % 2

abbrev pub get_marked : ℕ → ℕ
get_marked p = p - p % 2 + 1

abbrev pub set_next : Heap → Ptr → (level new : ℕ) → Heap
set_next m a i p = put m a (record (m a) { next = put (m a).next i p })

-- `ATOMIC_CAS_MB(&a->next[i], old, new)`.
abbrev pub cas_next : Heap → Ptr → (level old new : ℕ) → Bool × Heap
cas_next m a i old new =
    ((m a).next i == old, if (m a).next i == old then set_next m a i new else m)

-- `sl_new_simple_node` with the block that it gets, whose pointers are whatever they were.
abbrev pub sl_new_simple_node : Heap → (block : Ptr) → (key val toplevel : ℕ) → Heap
sl_new_simple_node m block key val toplevel =
    put m block
      (record { key = key; val = val; deleted = 0; toplevel = toplevel; next = (m block).next })

-- The loop of `sl_new_node`, from level `i` on.
unfoldable pub fill_next : Heap → Ptr → (next : Ptr) → (rounds i : ℕ) → Heap
fill_next m a next zero i = m
fill_next m a next (suc rounds) i = fill_next (set_next m a i next) a next rounds (i + 1)

-- The global `levelmax`.
module _ (levelmax : ℕ) where
  unfoldable pub sl_new_node :
      Heap → (block : Ptr) → (key val : ℕ) → (next : Ptr) → (toplevel : ℕ) → Heap
  sl_new_node m block key val next toplevel =
      fill_next (sl_new_simple_node m block key val toplevel) block next levelmax 0

  -- `sl_set_new` with the blocks of its two sentinels: the heap and `set->head`.
  unfoldable pub sl_set_new : Heap → (max min : Ptr) → Heap × Ptr
  sl_set_new m max min =
      let m1 = sl_new_node m max key_max 0 null levelmax in
      (sl_new_node m1 min key_min 0 max levelmax, min)

-- The loop of `sl_set_size`, on fuel.
unfoldable pub size_loop : ℕ → Heap → Ptr → ℕ → Option ℕ
size_loop zero m node size = none
size_loop (suc fuel) m node size =
    let next = (m node).next 0 in
    let rest =
      size_loop fuel m (get_unmarked next) (if not (is_marked next) then size + 1 else size) in
    if next == null then some size else rest

unfoldable pub sl_set_size : ℕ → Heap → (head : Ptr) → Option ℕ
sl_set_size fuel m head = size_loop fuel m (get_unmarked ((m head).next 0)) 0

-- The inner loops of `fraser_search` at level `i`, on fuel: `left`, `left_next` and `right`. A marked
-- `right_next` skips a node, an unmarked one with a key below `key` goes on from it.
unfoldable pub find_pair :
    ℕ → Heap → (i key : ℕ) → (left : Ptr) → (left_next right : ℕ) → Option (Ptr × ℕ × Ptr)
find_pair zero m i key left left_next right = none
find_pair (suc fuel) m i key left left_next right =
    let right_next = (m right).next i in
    let skip = find_pair fuel m i key left left_next (get_unmarked right_next) in
    let onward = find_pair fuel m i key right right_next right_next in
    if is_marked right_next
    then skip
    else if leb key (m right).key
    then some (left, left_next, right)
    else onward

-- What comes of one descent: the arrays and the heap, or a jump to `retry`.
pub data Descent : Type 0 where
  arrived : (left_list right_list : ℕ → Ptr) → Heap → Descent
  retry : Heap → Descent

-- The loop of `fraser_search` over the levels below `n`, from `left`.
unfoldable pub descend :
    (fuel n : ℕ)
    → Heap
    → (key : ℕ) → (left : Ptr) → (left_list right_list : ℕ → Ptr) → Option Descent
descend fuel zero m key left left_list right_list = some (arrived left_list right_list m)
descend fuel (suc i) m key left left_list right_list =
    let left_next = (m left).next i in
    let level : Option Descent = elim (find_pair fuel m i key left left_next left_next) [
      | none ↦ none
      | some (left1, left_next1, right) ↦
          let (swapped, m1) = cas_next m left1 i left_next1 right in
          let lefts = put left_list i left1 in
          let rights = put right_list i right in
          let unchanged = descend fuel i m key left1 lefts rights in
          let changed = descend fuel i m1 key left1 lefts rights in
          if left_next1 == right then unchanged else if swapped then changed else some (retry m1)
    ] in
    if is_marked left_next then some (retry m) else level

-- What `fraser_search` writes to its arrays, and the heap.
pub record Found : Type 0 where
  pub left_list : ℕ → Ptr
  pub right_list : ℕ → Ptr
  pub heap : Heap

abbrev pub nowhere : ℕ → Ptr
nowhere i = null

module _ (levelmax : ℕ) where
  -- `fraser_search` with as many tries.
  unfoldable pub fraser_search : (tries fuel : ℕ) → Heap → (head : Ptr) → (key : ℕ) → Option Found
  fraser_search zero fuel m head key = none
  fraser_search (suc tries) fuel m head key =
      elim (descend fuel levelmax m key head nowhere nowhere) [
        | none ↦ none
        | some (arrived lefts rights m1) ↦
            some (record { left_list = lefts; right_list = rights; heap = m1 })
        | some (retry m1) ↦ fraser_search tries fuel m1 head key
      ]

  unfoldable pub fraser_find :
      (tries fuel : ℕ) → Heap → (head : Ptr) → (key : ℕ) → Option (ℕ × Heap)
  fraser_find tries fuel m head key = elim (fraser_search tries fuel m head key) [
    | none ↦ none
    | some f ↦
        let n = f.heap (f.right_list 0) in
        some (if (n.key == key) && (n.deleted == 0) then n.val else 0, f.heap)
  ]
