-- ===== src/Harris/Qsense.antt =====
-- src/linkedlist-harris-qsense: the list with hazard pointers over the hybrid scheme. Its text is that
-- of Hazard, with the hybrid scheme's `HP`, `free_node_later` and `allocate_fail`.
pub mod Search
use qsense.Prelude.{
  ℕ, suc, ◌+◌, ◌*◌, ◌<◌, ◌≤◌, ◌≡◌, ◌≢◌, refl, true, false, Bool, Option, none, some, List, [], ◌∷◌,
  put, Each, arith, ◌==◌, if◌then◌else◌, length, put_self, Bool-cases, inl, inr, subst,
}
use qsense.DoubleLlist.{Ptr}
use qsense.Hybrid.State.{TimeVal, MrNode, Hybrid, n_epochs, k}
use qsense.Hybrid.Hazards.{free_node_later, scan}
use qsense.Hybrid.Modes.{allocate_fail}
use qsense.Harris.Hazard
use qsense.Harris.Hazard.{World, Others, Round, Place, Try}

abbrev pub set_hp : ℕ → Ptr → Hybrid → Hybrid
set_hp i p s = record s { hp = put s.hp i p }

-- The `while` loop of `harris_insert` over failed allocations, each with the clock of its scan; the
-- last allocation gets `block`.
unfoldable pub allocate_node :
    (me trials : ℕ) → List (MrNode → TimeVal) → (block : Ptr) → Hybrid → Ptr × Hybrid
allocate_node me trials [] block s = (block, s)
allocate_node me trials (clock ∷ failures) block s =
    allocate_node me (trials + 1) failures block (allocate_fail clock s me trials)

-- Thread `me`; `clock` is for the scans, `wrapper q` is the block that wraps node `q` when it is
-- retired, at the time `now q`.
module _ (clock : MrNode → TimeVal) (wrapper : Ptr → Ptr) (now : Ptr → TimeVal) (me : ℕ) where
  abbrev pub retire : Ptr → Hybrid → Hybrid
  retire q s = free_node_later clock s me (wrapper q) q (now q)

  unfoldable pub list_search :
      List (Round Hybrid) → (key : ℕ) → (head : Ptr) → World Hybrid → Option (Place Hybrid)
  list_search others key head w = Hazard.list_search set_hp retire others key head (k * me) w

  unfoldable pub harris_find :
      List (Others Hybrid) → (key : ℕ) → (head : Ptr) → World Hybrid → Option (ℕ × World Hybrid)
  harris_find others key head w = Hazard.harris_find set_hp retire others key head (k * me) w

  unfoldable pub harris_insert :
      List (Try set_hp retire)
      → (key val : ℕ) → (head : Ptr) → World Hybrid
      → Option (ℕ × World Hybrid)
  harris_insert tries key val head w =
      Hazard.harris_insert set_hp retire tries key val head (k * me) w

  unfoldable pub harris_delete :
      List (Try set_hp retire)
      → List (Round Hybrid)
      → (key : ℕ) → (head : Ptr) → World Hybrid
      → Option (ℕ × World Hybrid)
  harris_delete tries last key head w =
      Hazard.harris_delete set_hp retire tries last key head (k * me) w
