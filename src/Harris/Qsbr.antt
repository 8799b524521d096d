-- ===== src/Harris/Qsbr.antt =====
-- src/linkedlist-harris-qsbr/harris_opt.c: Harris' list over the quiescent states of src/qsbr.c.
pub mod Retire
use qsense.Prelude.{
  ℕ, zero, suc, ◌+◌, Bool, true, false, not, ◌&&◌, Option, none, some, List, [], ◌∷◌, ◌==◌, ltb,
  leb, if◌then◌else◌, put,
}
use qsense.DoubleLlist.{Ptr}
use qsense.Qsbr.{Qsbr, MrNode, Others, free_node_later, quiescent_state_blocking}
use qsense.Harris.{Node, Heap, is_marked_ref, get_unmarked_ref, get_marked_ref, cas_next}

abbrev pub World : Type 0
World = Heap × Qsbr

-- What `free_node_later(q)` meets: the allocations that fail, with the yields of the quiescent state
-- behind each, and then the block for the wrapper.
pub record Supply : Type 0 where
  pub failures : Ptr → List (List Others)
  pub wrapper : Ptr → MrNode

-- Thread `me`. No result is a fuel that is too small, or a quiescent state that does not end.
module _ (supply : Supply) (me : ℕ) where
  unfoldable pub physical_delete_right :
      World → (left_node right_node : Ptr) → Option (Bool × World)
  physical_delete_right (m, s) left_node right_node =
      let (res, m1) = cas_next m left_node right_node (get_unmarked_ref (m right_node).next) in
      if res == right_node
      then (elim (free_node_later s me res (supply.failures res) (supply.wrapper res)) [
        | none ↦ none
        | some s1 ↦ some (true, (m1, s1))
      ])
      else some (false, (m1, s))

  unfoldable pub search_loop :
      ℕ → (key : ℕ) → (left_node right_node : Ptr) → World → Option (Ptr × Ptr × World)
  search_loop zero key left_node right_node w = none
  search_loop (suc fuel) key left_node right_node w =
      let right_next = (w.0 right_node).next in
      let onward = search_loop fuel key right_node (get_unmarked_ref right_next) w in
      let around : Option (Ptr × Ptr × World) =
        elim (physical_delete_right w left_node right_node) [
          | none ↦ none
          | some (removed, w1) ↦
              search_loop fuel key left_node (get_unmarked_ref (w1.0 right_node).next) w1
        ] in
      if not (is_marked_ref right_next)
      then (if leb key (w.0 right_node).key then some (left_node, right_node, w) else onward)
      else around

  unfoldable pub list_search : ℕ → (key : ℕ) → (head : Ptr) → World → Option (Ptr × Ptr × World)
  list_search fuel key head w = search_loop fuel key head (w.0 head).next w

  unfoldable pub find_loop : ℕ → Heap → (key : ℕ) → Ptr → Option Ptr
  find_loop zero m key node = none
  find_loop (suc fuel) m key node =
      let rest = find_loop fuel m key (get_unmarked_ref (m node).next) in
      if ltb (m node).key key then rest else some node

  unfoldable pub harris_find : ℕ → Heap → (head : Ptr) → (key : ℕ) → Option ℕ
  harris_find fuel m head key = elim (find_loop fuel m key (m head).next) [
    | none ↦ none
    | some node ↦
        some
          (if ((m node).key == key) && not (is_marked_ref (m node).next) then (m node).val else 0)
  ]

  -- The `while` loop of `harris_insert` over failed allocations: a blocking quiescent state for each.
  unfoldable pub allocate_node : List (List Others) → Qsbr → Option Qsbr
  allocate_node [] s = some s
  allocate_node (yields ∷ failures) s = elim (quiescent_state_blocking yields s me) [
    | none ↦ none
    | some s1 ↦ allocate_node failures s1
  ]

  -- A round of an update: the failed allocations, the block, and what the others do before the CAS.
  pub record Try : Type 0 where
    pub failed : List (List Others)
    pub block : Ptr
    pub before_cas : World → World

  unfoldable pub harris_insert :
      ℕ → List Try → (key val : ℕ) → (head : Ptr) → World → Option (ℕ × World)
  harris_insert fuel [] key val head w = none
  harris_insert fuel (t ∷ tries) key val head w = elim (list_search fuel key head w) [
    | none ↦ none
    | some (left_node, right_node, w1) ↦
        let adding : Option (ℕ × World) = elim (allocate_node t.failed w1.1) [
          | none ↦ none
          | some s1 ↦
              let new : Node = record { key = key; val = val; next = right_node } in
              let w2 = t.before_cas (put w1.0 t.block new, s1) in
              let (res, m3) = cas_next w2.0 left_node right_node t.block in
              let again = harris_insert fuel tries key val head (m3, w2.1) in
              if res == right_node then some (1, (m3, w2.1)) else again
        ] in
        if (w1.0 right_node).key == key then some (0, w1) else adding
  ]

  unfoldable pub harris_delete :
      ℕ → List (World → World) → (key : ℕ) → (head : Ptr) → World → Option (ℕ × World)
  harris_delete fuel [] key head w = none
  harris_delete fuel (before_cas ∷ tries) key head w = elim (list_search fuel key head w) [
    | none ↦ none
    | some (left_node, right_node, w1) ↦
        let w2 = before_cas w1 in
        let unmarked_ref = get_unmarked_ref (w2.0 right_node).next in
        let (cas_result, m3) =
          cas_next w2.0 right_node unmarked_ref (get_marked_ref unmarked_ref) in
        let again = harris_delete fuel tries key head (m3, w2.1) in
        let ret = (m3 right_node).val in
        let cleaned = λ (w4 : World).
          let last : Option (ℕ × World) = elim (list_search fuel key head w4) [
            | none ↦ none
            | some (_, _, w5) ↦ some (ret, w5)
          ] in
          last in
        let marked : Option (ℕ × World) =
          elim (physical_delete_right (m3, w2.1) left_node right_node) [
            | none ↦ none
            | some (removed, w4) ↦ if removed then some (ret, w4) else cleaned w4
          ] in
        if not ((w1.0 right_node).key == key)
        then some (0, w1)
        else if cas_result == unmarked_ref
        then marked
        else again
  ]
