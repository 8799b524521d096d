-- ===== src/Fraser/Set.antt =====
-- src/skiplist-fraser: the operations of a set, and what skiplist.c has besides.
use qsense.Prelude.{
  ℕ, zero, suc, ◌+◌, ◌/◌, ◌^◌, Bool, not, Option, none, some, List, [], ◌∷◌, ◌++◌, ◌==◌, ltb, leb,
  if◌then◌else◌, put,
}
use qsense.DoubleLlist.{Ptr, null}
use qsense.Fraser.{Heap, set_next, sl_new_simple_node, fraser_find}
use qsense.Fraser.Height.{get_rand_level}
use qsense.Fraser.Update.{Others, Try, fraser_insert, fraser_remove}

module _ (levelmax tries fuel : ℕ) where
  -- `sl_contains`, `sl_add` and `sl_remove` of the lock-free build. `sl_add` draws a height.
  abbrev sl_contains : Heap → (head : Ptr) → (key : ℕ) → Option (ℕ × Heap)
  sl_contains m head key = fraser_find levelmax tries fuel m head key

  abbrev sl_add :
      List Try
      → (draws : ℕ → ℕ) → Heap
      → (head : Ptr) → (key val : ℕ) → (new : Ptr) → Option (ℕ × Bool × Heap)
  sl_add rounds draws m head key val new =
      fraser_insert levelmax tries fuel rounds m head key val new (get_rand_level levelmax draws)

  abbrev sl_remove :
      (before_inc : Others)
      → (marking : List Others) → Heap
      → (head : Ptr) → (key : ℕ) → Option (ℕ × Heap)
  sl_remove before_inc marking m head key =
      fraser_remove levelmax tries fuel before_inc marking m head key

-- The loop of `sl_set_delete`, on fuel: the nodes that it gives back.
unfoldable delete_loop : ℕ → Heap → (node : Ptr) → Option (List Ptr)
delete_loop zero m node = none
delete_loop (suc fuel) m node =
    let rest = delete_loop fuel m ((m node).next 0) in
    if node == null then some [] else elim rest [ none ↦ none | some given ↦ some (node ∷ given) ]

-- `sl_set_delete`, with the set's own block last.
abbrev sl_set_delete : ℕ → Heap → (set head : Ptr) → Option (List Ptr)
sl_set_delete fuel m set head = elim (delete_loop fuel m head) [
  | none ↦ none
  | some given ↦ some (given ++ set ∷ [])
]

-- The `while` of `sl_seq_add` at a level, on fuel.
unfoldable seq_walk : ℕ → Heap → (i key : ℕ) → (node : Ptr) → Option Ptr
seq_walk zero m i key node = none
seq_walk (suc fuel) m i key node =
    let next = (m node).next i in
    let rest = seq_walk fuel m i key next in if ltb (m next).key key then rest else some node

-- Its loop over the levels below `n`: the last node, `preds` and `succs`.
unfoldable seq_search :
    (fuel n : ℕ)
    → Heap
    → (key : ℕ) → (node : Ptr) → (preds succs : ℕ → Ptr) → Option (Ptr × (ℕ → Ptr) × (ℕ → Ptr))
seq_search fuel zero m key node preds succs = some (node, preds, succs)
seq_search fuel (suc i) m key node preds succs = elim (seq_walk fuel m i key node) [
  | none ↦ none
  | some node1 ↦ seq_search fuel i m key node1 (put preds i node1) (put succs i ((m node1).next i))
]

-- Its loop that links the node, for `rounds` levels from `i` on.
unfoldable seq_link : (rounds i : ℕ) → Heap → (node : Ptr) → (preds succs : ℕ → Ptr) → Heap
seq_link zero i m node preds succs = m
seq_link (suc rounds) i m node preds succs =
    seq_link rounds (i + 1) (set_next (set_next m node i (succs i)) (preds i) i node) node preds
      succs

abbrev nothing : ℕ → Ptr
nothing i = null

-- `sl_seq_add` with the block and the height of a new node: the result and the heap.
abbrev sl_seq_add :
    (fuel : ℕ) → Heap → (head : Ptr) → (key val : ℕ) → (new : Ptr) → (l : ℕ) → Option (ℕ × Heap)
sl_seq_add fuel m head key val new l =
    elim (seq_search fuel (m head).toplevel m key head nothing nothing) [
      | none ↦ none
      | some (node, preds, succs) ↦
          let node1 = (m node).next 0 in
          let m1 = sl_new_simple_node m new key val l in
          if not ((m node1).key == key)
          then some (1, seq_link l 0 m1 new preds succs)
          else some (0, m)
    ]

-- A step of `floor_log_2`, for `n` and `pos`.
abbrev shift_down : (bits : ℕ) → ℕ × ℕ → ℕ × ℕ
shift_down bits (n, pos) = if leb (2 ^ bits) n then (n / 2 ^ bits, pos + bits) else (n, pos)

-- `floor_log_2`; `none` is the code's -1.
abbrev floor_log_2 : ℕ → Option ℕ
floor_log_2 n =
    let (n1, pos1) = shift_down 2 (shift_down 4 (shift_down 8 (shift_down 16 (n, 0)))) in
    let pos2 = if leb 2 n1 then pos1 + 1 else pos1 in if n1 == 0 then none else some pos2
