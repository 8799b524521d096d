-- ===== src/Bst/Qsense/Search.antt =====
-- src/bst-aravind-qsense with src/hybrid_optimized.c: what a seek protects, what a search returns, and what a
-- removal retires.
use qsense.Prelude.{
  ℕ, suc, ◌*◌, ◌<◌, ◌≡◌, refl, sym, true, none, some, List, ◌∷◌, Each, put_self, put_ne, ◌==◌,
  if◌then◌else◌,
}
use qsense.DoubleLlist.{Ptr}
use qsense.Hybrid.State.{TimeVal, MrNode, Hybrid, k}
use qsense.Harris.Qsense.{set_hp, retire}
use qsense.Bst
use qsense.Bst.Seek.{bst_search-lookup}
use qsense.Bst.{Heap, address, inf0, SeekRecord}
use qsense.Bst.Loss.{Loses}
use qsense.Bst.Tree.{Tree, inner, IsRooted, lookup}
use qsense.Bst.Order.{IsValid}
use qsense.Bst.Bind.{holds}
use qsense.Bst.Hazard.{World, Others, Try}
use qsense.Bst.Hazard.Protect
use qsense.Bst.Hazard.Held.{Respects, IsProtected}
use qsense.Bst.Hazard.Quiet
use qsense.Bst.Hazard.Quiet.{quiet_stages}
use qsense.Bst.Hazard.Retire
use qsense.Bst.Hazard.Retire.{quiet}
use qsense.Bst.Qsense.{bst_seek, bst_search, bst_remove}

module _ (clock : MrNode → TimeVal) (wrapper : Ptr → Ptr) (now : Ptr → TimeVal) (me : ℕ) where
  -- Whatever the other threads do to the tree, and as long as they leave this thread's six hazard
  -- pointers alone, a seek from an aligned root that comes back returns four nodes that the
  -- thread's first four hazard pointers hold.
  pub bst_seek-IsProtected :
      (others : List (Others Hybrid)) (key : ℕ) (node_r : Ptr) (w : World Hybrid) (r : SeekRecord)
      (w1 : World Hybrid)
      → Each (Respects set_hp (retire clock wrapper now me) (k * me) (λ s. s.hp)) others
      → address node_r ≡ node_r
      → bst_seek clock wrapper now me others key node_r w ≡ some (r, w1)
      → IsProtected set_hp (retire clock wrapper now me) (k * me) (λ s. s.hp) r w1.1
  unfolding bst_seek
  bst_seek-IsProtected others key node_r w r w1 own r_ok e =
      Protect.bst_seek-Ensures set_hp (retire clock wrapper now me) (k * me) (λ s. s.hp)
        (λ i p s. put_self s.hp i p) (λ i p s j ne. put_ne s.hp i p j (λ q. ne (sym q))) others key
        node_r w r w1 own r_ok e

  -- While no other thread acts, `bst_search` comes back after two more stages than a fuel above the
  -- number of internal nodes, with what the search of the plain tree returns on that fuel, and that is
  -- the lookup of the key, where the root leads to a tree with no edge flagged or tagged and with
  -- `inf0` at its own root, and the key is below the sentinels'. The tree's heap is as it was, and so
  -- are the threads' limbo lists, counts and epochs.
  pub bst_search-quiet_lookup :
      (fuel : ℕ) (m : Heap) (key : ℕ) (node_r node_s : Ptr) (t : Tree) (s : Hybrid)
      → IsRooted m node_r node_s t
      → key < inf0
      → inner t < fuel
      → (s1 : Hybrid) × (bst_search clock wrapper now me
            (quiet_stages (suc (suc fuel)))
            key
            node_r
            (m, s)
          ≡ some (lookup m key t, (m, s1)))
        × (Bst.bst_search fuel m key node_r ≡ some (lookup m key t))
        × (s1.td ≡ s.td)
  unfolding bst_search
  bst_search-quiet_lookup fuel m key node_r node_s t s h below lt =
      let (s1, found, same) =
        Quiet.bst_search-quiet set_hp (retire clock wrapper now me) (k * me) (λ s. s.td)
          (λ i p u. refl) fuel m key node_r node_s t s h below lt in
      (s1, found, bst_search-lookup m key node_r node_s t fuel h below lt, same)

  -- While no other thread acts, and with two more stages than a fuel above the number of internal
  -- nodes, `bst_remove` of a key below the sentinels' that a valid tree holds returns its value,
  -- leaves a valid tree that maps the key to 0 and every other key as before, and calls
  -- `free_node_later` twice, on a leaf with the key and then on an internal node, in a state in which
  -- the limbo lists, counts and epochs are as before. The two are exactly what the tree has lost: each
  -- address is a leaf, and an internal node, of the tree before as often as of the tree afterwards, but
  -- for the first of the two as a leaf and the second as an internal node, once more each.
  pub bst_remove-retires_two :
      (fuel : ℕ) (tries : List (Try set_hp (retire clock wrapper now me) (k * me))) (m : Heap)
      (key : ℕ) (node_r node_s : Ptr) (t : Tree) (s : Hybrid)
      → IsValid m node_r node_s t
      → key < inf0
      → inner t < fuel
      → holds m key t ≡ true
      → (m1 : Heap) × (t1 : Tree) × (s1 : Hybrid) × (freed : Ptr) × (above : Ptr) × (bst_remove
            clock wrapper now me
            (quiet set_hp (retire clock wrapper now me) (k * me) fuel ∷ tries)
            none
            key
            node_r
            (m, s)
          ≡ some (
            lookup m key t,
            (m1, retire clock wrapper now me above (retire clock wrapper now me freed s1)),
          ))
        × (s1.td ≡ s.td)
        × ((m freed).key ≡ key)
        × Loses t t1 freed above
        × IsValid m1 node_r node_s t1
        × ((j : ℕ) → lookup m1 j t1 ≡ (if j == key then 0 else lookup m j t))
  unfolding bst_remove
  bst_remove-retires_two fuel tries m key node_r node_s t s v below lt found =
      Retire.bst_remove-retires set_hp (retire clock wrapper now me) (k * me) (λ s. s.td)
        (λ i p u. refl) fuel tries m key node_r node_s t s v below lt found
