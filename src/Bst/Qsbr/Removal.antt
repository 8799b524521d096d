-- ===== src/Bst/Qsbr/Removal.antt =====
-- src/bst-aravind-qsbr with src/qsbr.c: what a removal hands to `free_node_later`.
use qsense.Prelude.{
  ℕ, ◌<◌, ◌≡◌, refl, ◌∙◌, sym, true, none, some, List, [], ◌∷◌, arith, ◌==◌, if◌then◌else◌,
}
use qsense.DoubleLlist.{Ptr}
use qsense.Qsbr.{Qsbr, MrNode, link_wrapper, free_node_later}
use qsense.Harris.Qsbr.Retire.{plenty}
use qsense.Bst.{Heap, address, inf0}
use qsense.Bst.Tree.{Tree, inner, lookup}
use qsense.Bst.Seek.{arrive, arrive-lookup, start, bst_seek-arrive}
use qsense.Bst.Order.{IsValid, root_edge}
use qsense.Bst.Bind.{equal_self, equal_hit, holds, arrive-holds, arrive-IsEdge}
use qsense.Bst.Prune.{prune}
use qsense.Bst.Cut.{cut, Any, Every-Any}
use qsense.Bst.Remove.{arrive-IsPath, bst_cleanup-cut}
use qsense.Bst.Loss.{Loses, prune-Loses}
use qsense.Bst.Unbind.{cut-root, cut-IsValid}
use qsense.Bst.Qsbr.{Try, bst_cleanup, bst_remove}

-- A round in which the other threads do nothing.
abbrev pub quiet_try : Try
quiet_try = record {
  failed_internal = [];
  internal = 0;
  failed_leaf = [];
  leaf = 0;
  before_cas = λ w. w;
  tagging = (λ m. m) ∷ [];
}

module _ (wrapper : Ptr → MrNode) (me : ℕ) where
  -- When no allocation of a wrapper fails and no other thread acts, and with more fuel than
  -- internal nodes, `bst_remove` of a key below the sentinels' that a valid tree holds returns its
  -- value, leaves a valid tree that maps the key to 0 and every other key as before, and puts two
  -- nodes on the thread's limbo list, first a leaf with the key and then an internal node. The two are
  -- exactly what the tree has lost: each address is a leaf, and an internal node, of the tree before as
  -- often as of the tree afterwards, but for the first of the two as a leaf and the second as an
  -- internal node, once more each.
  pub bst_remove-links_two :
      (fuel : ℕ) (tries : List Try) (m : Heap) (key : ℕ) (node_r node_s : Ptr) (t : Tree) (s : Qsbr)
      → IsValid m node_r node_s t
      → key < inf0
      → inner t < fuel
      → holds m key t ≡ true
      → (m1 : Heap) × (t1 : Tree) × (freed : Ptr) × (above : Ptr) × (bst_remove
            (plenty wrapper)
            me
            fuel
            (quiet_try ∷ tries)
            none
            key
            node_r
            (m, s)
          ≡ some (
            lookup m key t,
            (m1, link_wrapper (link_wrapper s me freed (wrapper freed)) me above (wrapper above)),
          ))
        × ((m freed).key ≡ key)
        × Loses t t1 freed above
        × IsValid m1 node_r node_s t1
        × ((k : ℕ) → lookup m1 k t1 ≡ (if k == key then 0 else lookup m k t))
  unfolding bst_remove bst_cleanup free_node_later
  bst_remove-links_two fuel tries m key node_r node_s t s v below lt found =
      let r = arrive m key (start node_r node_s t) t in
      let sought = bst_seek-arrive m key node_r node_s t fuel v.rooted below lt in
      let hit : ((m r.leaf).key == key) ≡ true =
        arrive-holds m key t node_r node_s node_s ∙ found in
      let (e, h) = root_edge m key node_r node_s t v below in
      let (edge, (even, ne), old_p, old_l) =
        arrive-IsEdge m Any key t node_r node_s node_s e h tt (Every-Any t) in
      let (starts, c) = cut-root m key node_r node_s t v below found in
      let path = arrive-IsPath m key t node_r node_s node_s e h v.s_out v.proper starts in
      let (edge2, apart, (even_s, ne_s), sib_ok) = path in
      let leaf_ok : address r.leaf ≡ r.leaf = omega (arith, even) in
      let suc_ok : address r.successor ≡ r.successor = omega (arith, even_s) in
      let cleaned = bst_cleanup-cut m key r path (even, ne) in
      let value : lookup m key t ≡ (m r.leaf).value =
        sym (arrive-lookup m key (start node_r node_s t) t refl) ∙ rw hit refl in
      (
        cut m key r,
        prune m key t,
        r.leaf,
        r.successor,
        rw value (
            rw (bst_remove, sought)
              (rw hit (
                rw leaf_ok (
                  rw edge (rw (equal_self r.leaf) (rw (bst_cleanup, cleaned) (rw suc_ok refl))))))),
        equal_hit (m r.leaf).key key hit,
        prune-Loses m key node_r node_s t v below found,
        cut-IsValid m key node_r node_s t v below c,
        c.reads,
      )
