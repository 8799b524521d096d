-- ===== src/Fraser/Update.antt =====
-- src/skiplist-fraser/fraser.c: removal and insertion.
use qsense.Prelude.{
  ℕ, zero, suc, ◌+◌, ◌-◌, ◌%◌, ◌^◌, Bool, true, false, not, Option, none, some, List, [], ◌∷◌, ◌==◌,
  if◌then◌else◌, put,
}
use qsense.DoubleLlist.{Ptr}
use qsense.Fraser.{
  Heap, is_marked, get_unmarked, get_marked, set_next, cas_next, sl_new_simple_node, fraser_search,
}

-- What the other threads do.
abbrev pub Others : Type 0
Others = Heap → Heap

-- The `do` loop of `mark_node_ptrs` at level `i`, with what the others do before the CAS of each round, and
-- what is left of that.
unfoldable pub mark_level : List Others → Heap → Ptr → (i : ℕ) → Option (List Others × Heap)
mark_level [] m n i = none
mark_level (other ∷ others) m n i =
    let n_next = (m n).next i in
    let (swapped, m1) = cas_next (other m) n i n_next (get_marked n_next) in
    let again = mark_level others m1 n i in
    if is_marked n_next
    then some (other ∷ others, m)
    else if swapped
    then some (others, m1)
    else again

-- The loop of `mark_node_ptrs` over the levels below `top`.
unfoldable pub mark_node_ptrs : List Others → Heap → Ptr → (top : ℕ) → Option Heap
mark_node_ptrs others m n zero = some m
mark_node_ptrs others m n (suc i) = elim (mark_level others m n i) [
  | none ↦ none
  | some (left, m1) ↦ mark_node_ptrs left m1 n i
]

module _ (levelmax : ℕ) where
  -- `fraser_remove`, with what the others do before the increment of `deleted` and in `mark_node_ptrs`.
  unfoldable pub fraser_remove :
      (tries fuel : ℕ)
      → (before_inc : Others) → (marking : List Others) → Heap
      → (head : Ptr) → (key : ℕ) → Option (ℕ × Heap)
  fraser_remove tries fuel before_inc marking m head key =
      elim (fraser_search levelmax tries fuel m head key) [
        | none ↦ none
        | some f ↦
            let m1 = f.heap in
            let n = f.right_list 0 in
            let m2 = before_inc m1 in
            let m3 = put m2 n (record (m2 n) { deleted = ((m2 n).deleted + 1) % 2 ^ 32 }) in
            let finish : Option (ℕ × Heap) = elim (mark_node_ptrs marking m3 n (m3 n).toplevel) [
              | none ↦ none
              | some m4 ↦ elim (fraser_search levelmax tries fuel m4 head key) [
                | none ↦ none
                | some g ↦ some ((m4 n).val, g.heap)
              ]
            ] in
            if not ((m1 n).key == key)
            then some (0, m1)
            else if not ((m1 n).deleted == 0)
            then some (0, m1)
            else if (m2 n).deleted == 0
            then finish
            else some (0, m3)
      ]

-- `succ->next`, the address of the array in the node.
abbrev pub next_array : Ptr → Ptr
next_array a = a + 24

-- The loop that writes the pointers of a new node, below level `n`.
unfoldable pub fill_levels : Heap → (new : Ptr) → (succs : ℕ → Ptr) → (n : ℕ) → Heap
fill_levels m new succs zero = m
fill_levels m new succs (suc i) = set_next (fill_levels m new succs i) new i (succs i)

-- What comes of linking a level: go on with the next one, or jump to `success`.
pub data Linking : Type 0 where
  onward : List Others → (preds succs : ℕ → Ptr) → Heap → Linking
  success : Heap → Linking

-- A round of `fraser_insert`: what the others do before the CAS at the lowest level, in `mark_node_ptrs`,
-- and while the upper levels are linked.
pub record Try : Type 0 where
  pub before_cas : Others
  pub marking : List Others
  pub linking : List Others

module _ (levelmax : ℕ) where
  -- The `while (1)` of `fraser_insert` at level `i`, with what the others do between the test of the new
  -- node's pointer and the CASes of each round.
  unfoldable pub link_level :
      (tries fuel : ℕ)
      → List Others
      → Heap
      → (head : Ptr) → (key : ℕ) → (new : Ptr) → (preds succs : ℕ → Ptr) → (i : ℕ) → Option Linking
  link_level tries fuel [] m head key new preds succs i = none
  link_level tries fuel (other ∷ others) m head key new preds succs i =
      let pred = preds i in
      let succ = succs i in
      let new_next = (m new).next i in
      let m1 = other m in
      let (stored, m2) =
        if new_next == succ then (true, m1) else cas_next m1 new i (get_unmarked new_next) succ in
      let succ1 = if (m2 succ).key == key then get_unmarked (next_array succ) else succ in
      let (linked, m3) = cas_next m2 pred i succ1 new in
      let again : Option Linking = elim (fraser_search levelmax tries fuel m3 head key) [
        | none ↦ none
        | some f ↦ link_level tries fuel others f.heap head key new f.left_list f.right_list i
      ] in
      if is_marked new_next
      then some (success m)
      else if not stored
      then some (onward others preds succs m2)
      else if linked
      then some (onward others preds succs m3)
      else again

  -- The loop of `fraser_insert` over `n` levels from `i` on.
  unfoldable pub link_levels :
      (tries fuel : ℕ)
      → List Others
      → Heap
      → (head : Ptr) → (key : ℕ) → (new : Ptr) → (preds succs : ℕ → Ptr) → (n i : ℕ) → Option Heap
  link_levels tries fuel others m head key new preds succs zero i = some m
  link_levels tries fuel others m head key new preds succs (suc n) i =
      elim (link_level tries fuel others m head key new preds succs i) [
        | none ↦ none
        | some (success m1) ↦ some m1
        | some (onward left preds1 succs1 m1) ↦
            link_levels tries fuel left m1 head key new preds1 succs1 n (i + 1)
      ]

  -- `fraser_insert` from `retry` on, for the new node, which has been made: the result, whether the node has
  -- been given back, and the heap.
  unfoldable pub insert_loop :
      (tries fuel : ℕ)
      → List Try
      → Heap
      → (head : Ptr) → (key : ℕ) → (new : Ptr) → Option (ℕ × Bool × Heap)
  insert_loop tries fuel [] m head key new = none
  insert_loop tries fuel (t ∷ rounds) m head key new =
      elim (fraser_search levelmax tries fuel m head key) [
        | none ↦ none
        | some f ↦
            let preds = f.left_list in
            let succs = f.right_list in
            let m1 = f.heap in
            let top = (m1 new).toplevel in
            let m2 = t.before_cas (fill_levels m1 new succs top) in
            let (linked, m3) = cas_next m2 (preds 0) 0 (succs 0) new in
            let retry = λ (m4 : Heap). insert_loop tries fuel rounds m4 head key new in
            let cleared : Option (ℕ × Bool × Heap) =
              elim (mark_node_ptrs t.marking m1 (succs 0) (m1 (succs 0)).toplevel) [
                | none ↦ none
                | some m4 ↦ retry m4
              ] in
            let upper : Option (ℕ × Bool × Heap) =
              elim (link_levels tries fuel t.linking m3 head key new preds succs (top - 1) 1) [
                | none ↦ none
                | some m4 ↦ some (1, false, m4)
              ] in
            if (m1 (succs 0)).key == key
            then (if not ((m1 (succs 0)).deleted == 0) then cleared else some (0, true, m1))
            else if linked
            then upper
            else retry m3
      ]

  -- `fraser_insert`; `top` is what `get_rand_level` returns, and `new` the block of the new node.
  unfoldable pub fraser_insert :
      (tries fuel : ℕ)
      → List Try
      → Heap
      → (head : Ptr) → (key val : ℕ) → (new : Ptr) → (top : ℕ) → Option (ℕ × Bool × Heap)
  fraser_insert tries fuel rounds m head key val new top =
      insert_loop tries fuel rounds (sl_new_simple_node m new key val top) head key new
