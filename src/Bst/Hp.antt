-- ===== src/Bst/Hp.antt =====
-- src/bst-aravind-hp: the tree of Hazard over the hazard pointers of src/smr.c.
use qsense.Prelude.{ℕ, ◌*◌, Bool, Option, List}
use qsense.DoubleLlist.{Ptr}
use qsense.Harris.Hp.{Scheme, set_hp, retire}
use qsense.Bst.{SeekRecord}
use qsense.Bst.Hazard
use qsense.Bst.Hazard.{World, Others, Try}

-- `K` is `k`, which is at least 6; `me` is `sd.thread_index`, and `wrapper q` is the block that wraps node
-- `q` when it is retired.
module _ (k : ℕ) (wrapper : Ptr → Ptr) (me : ℕ) where
  unfoldable pub bst_seek :
      List (Others Scheme)
      → (key : ℕ) → (node_r : Ptr) → World Scheme
      → Option (SeekRecord × World Scheme)
  bst_seek others key node_r w =
      Hazard.bst_seek set_hp (retire k wrapper) (k * me) others key node_r w

  unfoldable pub bst_search :
      List (Others Scheme) → (key : ℕ) → (node_r : Ptr) → World Scheme → Option (ℕ × World Scheme)
  bst_search others key node_r w =
      Hazard.bst_search set_hp (retire k wrapper) (k * me) others key node_r w

  unfoldable pub bst_insert :
      List (Try set_hp (retire k wrapper) (k * me))
      → (created : Option (Ptr × Ptr)) → (key val : ℕ) → (node_r : Ptr) → World Scheme
      → Option (Bool × World Scheme)
  bst_insert tries created key val node_r w =
      Hazard.bst_insert set_hp (retire k wrapper) (k * me) tries created key val node_r w

  unfoldable pub bst_remove :
      List (Try set_hp (retire k wrapper) (k * me))
      → (injected : Option Ptr) → (key : ℕ) → (node_r : Ptr) → World Scheme
      → Option (ℕ × World Scheme)
  bst_remove tries injected key node_r w =
      Hazard.bst_remove set_hp (retire k wrapper) (k * me) tries injected key node_r w
