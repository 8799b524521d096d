-- ===== src/Harris/Qsense/Search.antt =====
-- src/linkedlist-harris-qsense with src/hybrid_optimized.c: what a search protects and what it retires.
use qsense.Prelude.{
  ℕ, ◌+◌, ◌*◌, ◌<◌, ◌≤◌, ◌≡◌, ◌≢◌, refl, true, false, some, List, Each, length, put_self, subst,
  sym, ap,
}
use qsense.DoubleLlist.{Ptr}
use qsense.Hybrid.State.{TimeVal, MrNode, Hybrid, n_epochs, k}
use qsense.Hybrid.Conserve.{
  retired, free_node_later-epoch, free_node_later-hp, free_node_later-retired,
}
use qsense.Harris
use qsense.Harris.{Heap, get_unmarked_ref}
use qsense.Harris.Find.{is_live}
use qsense.Harris.Walk.{taken, IsSearchable}
use qsense.Harris.Hazard.{World, Round, Place}
use qsense.Harris.Hazard.Protect
use qsense.Harris.Hazard.Protect.{RespectsIn, IsProtected}
use qsense.Harris.Hazard.Quiet
use qsense.Harris.Hazard.Quiet.{quiet_rounds, copies}
use qsense.Harris.Hazard.Gap
use qsense.Harris.Hazard.Gap.{last_seen}
use qsense.Harris.Qsense.{set_hp, retire, list_search}

module _ (clock : MrNode → TimeVal) (wrapper : Ptr → Ptr) (now : Ptr → TimeVal) (me : ℕ) where
  -- Whatever the other threads do, as long as they leave this thread's hazard pointers alone, the node
  -- that list_search returns is held by one of them, was linked from the left one when that was
  -- checked, is not deleted and has a key at least as large.
  pub list_search-IsProtected :
      (others : List (Round Hybrid)) (key : ℕ) (head : Ptr) (w : World Hybrid) (p : Place Hybrid)
      → Each (RespectsIn set_hp (retire clock wrapper now me) (λ s. s.hp) (k * me)) others
      → list_search clock wrapper now me others key head w ≡ some p
      → IsProtected set_hp (retire clock wrapper now me) (λ s. s.hp) (k * me) p
        × (is_live p.world.0 p.right_node ≡ true)
        × (key ≤ (p.world.0 p.right_node).key)
  unfolding list_search
  list_search-IsProtected others key head w p r e =
      Protect.list_search-Ensures set_hp (retire clock wrapper now me) (λ s. s.hp)
        (λ i q s. put_self s.hp i q) others key head (k * me) w p r e

  -- While no other thread acts, and the thread's epoch is one of the three, list_search of a searchable
  -- list comes back with enough rounds, with what the search of the plain list finds and the same
  -- heap, and retires each marked node that it takes out once and no other.
  pub list_search-retired :
      (key : ℕ) (head : Ptr) (t : Ptr) (ns : List Ptr) (m : Heap) (s : Hybrid) (fuel : ℕ)
      → IsSearchable key t m head (m head).next ns
      → length ns < fuel
      → (s.td me).epoch < n_epochs
      → (p : Place Hybrid) × (list_search clock wrapper now me (quiet_rounds fuel) key head (m, s)
          ≡ some p)
        × (Harris.list_search fuel m head key ≡ some (p.left_node, p.right_node, p.world.0))
        × ((a : Ptr) → retired me p.world.1 a ≡ copies a (taken m key ns) + retired me s a)
  unfolding list_search Harris.list_search
  list_search-retired key head t ns m s fuel h lt ok =
      let (p, f) =
        Quiet.list_search-Agrees set_hp (retire clock wrapper now me) (retired me)
          (λ u. (u.td me).epoch < n_epochs) (λ i q u h. h)
          (λ q u small.
            subst (λ n. n < n_epochs) (sym (free_node_later-epoch clock u me (wrapper q) q (now q)))
              small)
          (λ i q u a. refl)
          (λ q u a h. free_node_later-retired clock u me (wrapper q) q (now q) a h) key head
          (k * me) t ns m s fuel h lt ok in
      (p, f.comes_back, f.plain, f.retires)

  -- While no other thread acts, list_search of a searchable list, one that ascends from a live head below
  -- the key to a live last sentinel that is not below it, comes back with more rounds than nodes. If the
  -- last node that it looks at before the one on the right is deleted, then the left node that it returns
  -- is live, and neither of the two hazard pointers of the thread holds it.
  pub list_search-left_bare :
      (key : ℕ) (head t : Ptr) (ns : List Ptr) (m : Heap) (s : Hybrid) (fuel : ℕ)
      → IsSearchable key t m head (m head).next ns
      → length ns < fuel
      → is_live m (last_seen m key head ns) ≡ false
      → (p : Place Hybrid) × (list_search clock wrapper now me (quiet_rounds fuel) key head (m, s)
          ≡ some p)
        × (is_live m p.left_node ≡ true)
        × ((i : ℕ) → i < 2 → p.world.1.hp (k * me + i) ≢ p.left_node)
  unfolding list_search
  list_search-left_bare key head t ns m s fuel h lt gone =
      Gap.list_search-bare set_hp (retire clock wrapper now me) (λ u. u.hp) (λ i q u j. refl)
        (λ q u j. ap (λ h. h j) (free_node_later-hp clock u me (wrapper q) q (now q))) key head
        (k * me) t ns m s fuel h lt gone
