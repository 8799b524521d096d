-- ===== src/Harris/Hp.antt =====
-- src/linkedlist-harris-hp: the list of Hazard over the hazard pointers of src/smr.c.
pub mod Insert
use qsense.Prelude.{ℕ, ◌*◌, Option, none, some, List, ◌==◌, if◌then◌else◌, put}
use qsense.DoubleLlist.{Ptr, null}
use qsense.Smr.{Smr, scan, free_node_later}
use qsense.Harris.Hazard
use qsense.Harris.Hazard.{World, Others, Round, Place, Try}

-- The scheme after a fault is `none`.
abbrev pub Scheme : Type 0
Scheme = Option Smr

abbrev pub set_hp : ℕ → Ptr → Scheme → Scheme
set_hp i p none = none
set_hp i p (some s) = some (record s { hp = put s.hp i p })

-- `wrapper q` is the block that wraps node `q` when it is retired.
abbrev pub retire : ℕ → (wrapper : Ptr → Ptr) → Ptr → Scheme → Scheme
retire k wrapper q none = none
retire k wrapper q (some s) = free_node_later k s (wrapper q) q

abbrev pub rescan : ℕ → Scheme → Scheme
rescan k none = none
rescan k (some s) = scan k s

-- How `harris_insert` comes to a block: `first` and `second` are what `ssalloc_alloc` returns.
abbrev pub allocate_node : ℕ → (first second : Ptr) → Scheme → Ptr × Scheme
allocate_node k first second s = if first == null then (second, rescan k s) else (first, s)

-- `K` is `k`; `me` is `sd.thread_index`.
module _ (k : ℕ) (wrapper : Ptr → Ptr) (me : ℕ) where
  unfoldable pub list_search :
      List (Round Scheme) → (key : ℕ) → (head : Ptr) → World Scheme → Option (Place Scheme)
  list_search others key head w =
      Hazard.list_search set_hp (retire k wrapper) others key head (k * me) w

  unfoldable pub harris_find :
      List (Others Scheme) → (key : ℕ) → (head : Ptr) → World Scheme → Option (ℕ × World Scheme)
  harris_find others key head w =
      Hazard.harris_find set_hp (retire k wrapper) others key head (k * me) w

  unfoldable pub harris_insert :
      List (Try set_hp (retire k wrapper))
      → (key val : ℕ) → (head : Ptr) → World Scheme
      → Option (ℕ × World Scheme)
  harris_insert tries key val head w =
      Hazard.harris_insert set_hp (retire k wrapper) tries key val head (k * me) w

  unfoldable pub harris_delete :
      List (Try set_hp (retire k wrapper))
      → List (Round Scheme)
      → (key : ℕ) → (head : Ptr) → World Scheme
      → Option (ℕ × World Scheme)
  harris_delete tries last key head w =
      Hazard.harris_delete set_hp (retire k wrapper) tries last key head (k * me) w
