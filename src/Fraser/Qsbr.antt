-- ===== src/Fraser/Qsbr.antt =====
-- src/skiplist-fraser-qsbr: the skip list over the quiescent states of src/qsbr.c.
use qsense.Prelude.{ℕ, Bool, Option, none, some, List, []}
use qsense.DoubleLlist.{Ptr}
use qsense.Qsbr.{Qsbr, Others, free_node_later}
use qsense.Harris.Qsbr.{Supply, allocate_node}
use qsense.Fraser
use qsense.Fraser.Hazard.{World, Found}
use qsense.Fraser.Hazard
use qsense.Fraser.Hazard.Update
use qsense.Fraser.Hazard.Update.{Try}

-- The scheme; `none` is a quiescent state that does not end.
abbrev Scheme : Type 0
Scheme = Option Qsbr

-- Thread `me`.
module _ (supply : Supply) (me levelmax : ℕ) where
  abbrev sl_delete_node : Ptr → Scheme → Scheme
  sl_delete_node q none = none
  sl_delete_node q (some s) = free_node_later s me q (supply.failures q) (supply.wrapper q)

  -- A search runs without other threads and does not touch the scheme.
  unfoldable search :
      (tries fuel : ℕ)
      → (wants_left wants_right : Bool) → List (Hazard.Others Scheme)
      → World Scheme
      → (head : Ptr) → (key : ℕ) → Option (Found Scheme)
  search tries fuel wl wr others (m, s) head key =
      elim (Fraser.fraser_search levelmax tries fuel m head key) [
        | none ↦ none
        | some f ↦ some (record {
          left_list = f.left_list;
          right_list = f.right_list;
          later = others;
          world = (f.heap, s);
        })
      ]

  unfoldable fraser_remove :
      (tries fuel : ℕ)
      → (before_inc : Hazard.Others Scheme) → (marking : List (Hazard.Others Scheme)) → World Scheme
      → (head : Ptr) → (key : ℕ) → Option (ℕ × World Scheme)
  fraser_remove tries fuel before_inc marking =
      Update.fraser_remove (search tries fuel) sl_delete_node sl_delete_node [] before_inc marking
        []

  -- The allocations of `fraser_insert`, with a blocking quiescent state behind each that fails.
  abbrev allocate : List (List Others) → Scheme → Scheme
  allocate failures none = none
  allocate failures (some s) = allocate_node supply me failures s

  -- `fraser_insert`, which does not give the node back when the key is present.
  unfoldable fraser_insert :
      (tries fuel rounds : ℕ)
      → List (Try Scheme)
      → (failures : List (List Others)) → World Scheme
      → (head : Ptr) → (key val : ℕ) → (new : Ptr) → (top_level : ℕ) → Option (ℕ × World Scheme)
  fraser_insert tries fuel rounds ts failures (m, s) head key val new top_level =
      Update.fraser_insert (search tries fuel) sl_delete_node (λ q s. s) rounds ts
        (m, allocate failures s) head key val new top_level
