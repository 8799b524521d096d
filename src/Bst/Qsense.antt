-- ===== src/Bst/Qsense.antt =====
-- src/bst-aravind-qsense: the tree of Hazard over the hybrid scheme of src/hybrid_optimized.c. The loops over
-- failed allocations are `allocate_node` of Harris.Qsense.
pub mod Search
use qsense.Prelude.{ℕ, ◌*◌, Bool, Option, some, List, [], ◌∷◌}
use qsense.DoubleLlist.{Ptr}
use qsense.Hybrid.State.{TimeVal, MrNode, Hybrid, k}
use qsense.Harris.Qsense.{set_hp, retire, allocate_node}
use qsense.Bst.{SeekRecord}
use qsense.Bst.Hazard
use qsense.Bst.Hazard.{World, Others, Try}

-- Thread `me`, with the clock, the wrappers and the times of Harris.Qsense.
module _ (clock : MrNode → TimeVal) (wrapper : Ptr → Ptr) (now : Ptr → TimeVal) (me : ℕ) where
  -- A round of an update: `internal` and `leaf` are the clocks of the scans behind the allocations that fail,
  -- and the blocks that are got in the end.
  abbrev pub round :
      (seeking : List (Others Hybrid))
      → (internal leaf : List (MrNode → TimeVal) × Ptr) → (before_cas : Others Hybrid)
      → (tagging : List (Others Hybrid)) → Try set_hp (retire clock wrapper now me) (k * me)
  round seeking internal leaf before_cas tagging = record {
    seeking = seeking;
    allocate_internal = allocate_node me 0 internal.0 internal.1;
    allocate_leaf = allocate_node me 0 leaf.0 leaf.1;
    before_cas = before_cas;
    tagging = tagging;
  }

  unfoldable pub bst_seek :
      List (Others Hybrid)
      → (key : ℕ) → (node_r : Ptr) → World Hybrid
      → Option (SeekRecord × World Hybrid)
  bst_seek others key node_r w =
      Hazard.bst_seek set_hp (retire clock wrapper now me) (k * me) others key node_r w

  unfoldable pub bst_search :
      List (Others Hybrid) → (key : ℕ) → (node_r : Ptr) → World Hybrid → Option (ℕ × World Hybrid)
  bst_search others key node_r w =
      Hazard.bst_search set_hp (retire clock wrapper now me) (k * me) others key node_r w

  unfoldable pub bst_insert :
      List (Try set_hp (retire clock wrapper now me) (k * me))
      → (created : Option (Ptr × Ptr)) → (key val : ℕ) → (node_r : Ptr) → World Hybrid
      → Option (Bool × World Hybrid)
  bst_insert tries created key val node_r w =
      Hazard.bst_insert set_hp (retire clock wrapper now me) (k * me) tries created key val node_r w

  unfoldable pub bst_remove :
      List (Try set_hp (retire clock wrapper now me) (k * me))
      → (injected : Option Ptr) → (key : ℕ) → (node_r : Ptr) → World Hybrid
      → Option (ℕ × World Hybrid)
  bst_remove tries injected key node_r w =
      Hazard.bst_remove set_hp (retire clock wrapper now me) (k * me) tries injected key node_r w
