-- ===== src/Clh.antt =====
-- src/clh.c, include/clh.h: the queue lock, `LOCK=CLH`.
pub mod Queue
use qsense.Prelude.{
  ℕ, Bool, true, false, not, Option, none, some, List, [], ◌∷◌, ◌==◌, if◌then◌else◌, put,
}
use qsense.DoubleLlist.{Ptr, null}

-- The field `locked` of each queue node, and the lock.
pub record Clh : Type 0 where
  pub locked : Ptr → ℕ
  pub the_lock : Ptr

-- `clh_local_params`.
pub record ClhLocalParams : Type 0 where
  pub my_qnode : Ptr
  pub my_pred : Ptr

-- `init_alloc_clh`, with the block that it gets.
abbrev pub init_alloc_clh : (locked : Ptr → ℕ) → (a_node : Ptr) → Clh
init_alloc_clh locked a_node = record { locked = put locked a_node 0; the_lock = a_node }

-- `init_clh_thread`, with the block that it gets.
abbrev pub init_clh_thread : Clh → (block : Ptr) → ClhLocalParams × Clh
init_clh_thread s block =
    (record { my_qnode = block; my_pred = null }, record s { locked = put s.locked block 0 })

-- The start of `clh_acquire`: the predecessor and the state after the swap.
abbrev pub swap_in : Clh → (my_qnode : Ptr) → Ptr × Clh
swap_in s my_qnode = (s.the_lock, record { locked = put s.locked my_qnode 1; the_lock = my_qnode })

-- What its loop waits for.
abbrev pub pred_done : Clh → (pred : Ptr) → Bool
pred_done s pred = s.locked pred == 0

-- Its loop, with what the others do at each round.
unfoldable pub wait : List (Clh → Clh) → Clh → (pred : Ptr) → Option Clh
wait [] s pred = if pred_done s pred then some s else none
wait (other ∷ others) s pred =
    let rest = wait others (other s) pred in if pred_done s pred then some s else rest

-- `clh_acquire`: the predecessor, or null where the lock was free.
abbrev pub clh_acquire : List (Clh → Clh) → Clh → (my_qnode : Ptr) → Option (Ptr × Clh)
clh_acquire others s my_qnode =
    let (pred, s1) = swap_in s my_qnode in
    let waited : Option (Ptr × Clh) = elim (wait others s1 pred) [
      | none ↦ none
      | some s2 ↦ some (pred, s2)
    ] in
    if pred == null then some (null, s1) else waited

-- `clh_release`: what becomes the thread's node.
abbrev pub clh_release : Clh → (my_qnode my_pred : Ptr) → Ptr × Clh
clh_release s my_qnode my_pred = (my_pred, record s { locked = put s.locked my_qnode 0 })
