-- ===== src/Fraser/Hazard/Hp.antt =====
-- src/skiplist-fraser-hp: the skip list of Hazard over the hazard pointers of src/smr.c.
use qsense.Prelude.{ℕ, ◌+◌, ◌*◌, Bool, Option, List}
use qsense.DoubleLlist.{Ptr}
use qsense.Harris.Hp
use qsense.Harris.Hp.{Scheme}
use qsense.Fraser.Hazard
use qsense.Fraser.Hazard.{World, Others, Found}
use qsense.Fraser.Hazard.Update
use qsense.Fraser.Hazard.Update.{Try}

-- `K` is `k`; `me` is `sd.thread_index`, and `wrapper q` is the block that wraps node `q` when it is retired.
module _ (k : ℕ) (wrapper : Ptr → Ptr) (me : ℕ) where
  abbrev assign_hp : ℕ → Ptr → Scheme → Scheme
  assign_hp i p s = Hp.set_hp (k * me + i) p s

  abbrev sl_delete_node : Ptr → Scheme → Scheme
  sl_delete_node q s = Hp.retire k wrapper q s

  module _ (levelmax : ℕ) where
    unfoldable fraser_search :
        (wants_left wants_right : Bool)
        → (tries : ℕ) → List (Others Scheme)
        → World Scheme
        → (head : Ptr) → (key : ℕ) → Option (Found Scheme)
    fraser_search = Hazard.fraser_search assign_hp levelmax

    unfoldable fraser_find :
        (tries : ℕ)
        → List (Others Scheme)
        → World Scheme
        → (head : Ptr) → (key : ℕ) → Option (ℕ × World Scheme)
    fraser_find = Hazard.fraser_find assign_hp levelmax

    unfoldable fraser_remove :
        (tries : ℕ)
        → (searching : List (Others Scheme)) → (before_inc : Others Scheme)
        → (marking last : List (Others Scheme)) → World Scheme
        → (head : Ptr) → (key : ℕ) → Option (ℕ × World Scheme)
    fraser_remove tries =
        Update.fraser_remove (λ wl wr. fraser_search wl wr tries) sl_delete_node sl_delete_node

    unfoldable fraser_insert :
        (rounds tries : ℕ)
        → List (Try Scheme)
        → World Scheme
        → (head : Ptr) → (key val : ℕ) → (new : Ptr) → (top : ℕ) → Option (ℕ × World Scheme)
    fraser_insert rounds tries =
        Update.fraser_insert (λ wl wr. fraser_search wl wr tries) sl_delete_node sl_delete_node
          rounds
