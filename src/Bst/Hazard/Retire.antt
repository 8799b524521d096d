-- ===== src/Bst/Hazard/Retire.antt =====
-- src/bst-aravind-hp/bst-aravind.c: what a removal retires while no other thread acts.
use qsense.Prelude.{
  ℕ, suc, ◌<◌, ◌≡◌, ◌≢◌, refl, ◌∙◌, sym, ap, true, none, some, List, [], ◌∷◌, arith, ◌==◌,
  if◌then◌else◌,
}
use qsense.DoubleLlist.{Ptr}
use qsense.Bst.{
  Heap, Side, side, opposite, child, set_child, address, flag, tag, untag, is_flagged, inf0,
  SeekRecord,
}
use qsense.Bst.Tree.{Tree, inner, IsAddress, lookup}
use qsense.Bst.Seek.{arrive, arrive-lookup, start}
use qsense.Bst.Change.{set_child_self, set_child_other, set_child_ne, set_child-keys, child_same}
use qsense.Bst.Order.{IsValid, root_edge}
use qsense.Bst.Bind.{equal_self, equal_hit, holds, arrive-holds, arrive-IsEdge}
use qsense.Bst.Prune.{prune}
use qsense.Bst.Cut.{cut, Any, Every-Any}
use qsense.Bst.Remove.{IsPath, arrive-IsPath}
use qsense.Bst.Loss.{Loses, prune-Loses}
use qsense.Bst.Unbind.{cut-root, cut-IsValid}
use qsense.Bst.Hazard.{World, Try, tag_loop, bst_cleanup, bst_remove}
use qsense.Bst.Hazard.Quiet.{quiet_stages, bst_seek-quiet}

module _ {S : Type 0} (set_hp : ℕ → Ptr → S → S) (retire : Ptr → S → S) (base : ℕ) where
  tag_once :
      (w : World S) (a : Ptr) (s : Side)
      → tag_loop set_hp retire base ((λ v. v) ∷ []) w a s
        ≡ some (set_child w.0 a s (tag (child w.0 a s)), w.1)
  unfolding tag_loop
  tag_once w a s = rw (equal_self (child w.0 a s)) refl

  -- `bst_cleanup` where the edge to the leaf is flagged and no other thread acts.
  cleanup_flagged :
      (m : Heap) (s : S) (key : ℕ) (r : SeekRecord) (at above : Side) (sibling : Ptr)
      → side key (m r.parent).key ≡ at
      → side key (m r.ancestor).key ≡ above
      → child m r.parent at ≡ flag r.leaf
      → child m r.parent (opposite at) ≡ sibling
      → child m r.ancestor above ≡ r.successor
      → r.ancestor ≢ r.parent
      → IsAddress r.successor
      → IsAddress r.leaf
      → IsAddress sibling
      → bst_cleanup set_hp retire base ((λ v. v) ∷ []) (m, s) r key
        ≡ some (
          true,
          (
            set_child (set_child m r.parent (opposite at) (tag sibling)) r.ancestor above sibling,
            retire r.successor (retire r.leaf s),
          ),
        )
  unfolding bst_cleanup
  cleanup_flagged m s key r at above sibling sp sa to_leaf to_sibling to_suc apart (es, ns) (el, nl)
        (eb, nb) =
      let flagged : is_flagged (flag r.leaf) ≡ true = ground (arith, el) in
      let m2 = set_child m r.parent (opposite at) (tag sibling) in
      let tagged : tag_loop set_hp retire base ((λ v. v) ∷ []) (m, s) r.parent (opposite at)
          ≡ some (m2, s) =
        tag_once (m, s) r.parent (opposite at)
        ∙ ap (λ x. some (set_child m r.parent (opposite at) (tag x), s)) to_sibling in
      let suc_at : child m2 r.ancestor above ≡ r.successor =
        child_same m m2 r.ancestor above
          (set_child_ne m r.parent (opposite at) (tag sibling) r.ancestor apart)
        ∙ to_suc in
      let sib_at : child m2 r.parent (opposite at) ≡ tag sibling =
        set_child_self m r.parent (opposite at) (tag sibling) in
      let untagged : untag (tag sibling) ≡ sibling = ground (arith, eb) in
      let suc_ok : address r.successor ≡ r.successor = omega (arith, es) in
      let leaf_ok : address (flag r.leaf) ≡ r.leaf = ground (arith, el) in
      rw (bst_cleanup, sp)
        (rw to_leaf (
          rw flagged (
            rw tagged (
              rw sp (
                rw sa (
                  rw to_leaf (
                    rw flagged (
                      rw sib_at (
                        rw suc_at (
                          rw suc_ok
                            (rw untagged (rw leaf_ok (rw (equal_self r.successor) refl)))))))))))))

  -- A round in which the other threads do nothing, for a seek with the given fuel.
  abbrev pub quiet : ℕ → Try set_hp retire base
  quiet fuel = record {
    seeking = quiet_stages (suc (suc fuel));
    allocate_internal = λ s. (0, s);
    allocate_leaf = λ s. (0, s);
    before_cas = λ w. w;
    tagging = (λ w. w) ∷ [];
  }

  cleanup-cut :
      (m : Heap) (s : S) (key : ℕ) (r : SeekRecord)
      → IsPath m key r
      → IsAddress r.leaf
      → (let at = side key (m r.parent).key in
          bst_cleanup set_hp retire base
            ((λ v. v) ∷ [])
            (set_child m r.parent at (flag r.leaf), s)
            r
            key
          ≡ some (true, (cut m key r, retire r.successor (retire r.leaf s))))
  cleanup-cut m s key r (edge, apart, suc_ok, sib_ok) ok =
      let at = side key (m r.parent).key in
      let keys = set_child-keys m r.parent at (flag r.leaf) in
      let above = side key (m r.ancestor).key in
      let m1 = set_child m r.parent at (flag r.leaf) in
      let anc_same = set_child_ne m r.parent at (flag r.leaf) r.ancestor apart in
      cleanup_flagged m1 s key r at above (child m r.parent (opposite at))
        (ap (side key) (keys r.parent)) (ap (side key) (keys r.ancestor))
        (set_child_self m r.parent at (flag r.leaf)) (set_child_other m r.parent at (flag r.leaf))
        (child_same m m1 r.ancestor above anc_same ∙ edge) apart suc_ok ok sib_ok

  module _ {A : Type 0} (f : S → A)
      (keeps : (i : ℕ) (p : Ptr) (s : S) → f (set_hp i p s) ≡ f s) where
    -- While no other thread acts, `bst_remove` of a key that a valid tree holds returns its value, leaves a
    -- valid tree without the key that maps every other key as before, and retires two nodes, a leaf with
    -- the key and then an internal node, after stores of hazard pointers only. These two are exactly the nodes
    -- of the tree before that are not in the tree afterwards.
    pub bst_remove-retires :
        (fuel : ℕ) (tries : List (Try set_hp retire base)) (m : Heap) (key : ℕ)
        (node_r node_s : Ptr) (t : Tree) (s : S)
        → IsValid m node_r node_s t
        → key < inf0
        → inner t < fuel
        → holds m key t ≡ true
        → (m1 : Heap) × (t1 : Tree) × (s1 : S) × (freed : Ptr) × (above : Ptr) × (bst_remove set_hp
              retire base
              (quiet fuel ∷ tries)
              none
              key
              node_r
              (m, s)
            ≡ some (lookup m key t, (m1, retire above (retire freed s1))))
          × (f s1 ≡ f s)
          × ((m freed).key ≡ key)
          × Loses t t1 freed above
          × IsValid m1 node_r node_s t1
          × ((k : ℕ) → lookup m1 k t1 ≡ (if k == key then 0 else lookup m k t))
    unfolding bst_remove
    bst_remove-retires fuel tries m key node_r node_s t s v below lt found =
        let r = arrive m key (start node_r node_s t) t in
        let (s1, sought, same) =
          bst_seek-quiet set_hp retire base f keeps fuel m key node_r node_s t s v.rooted below
            lt in
        let hit : ((m r.leaf).key == key) ≡ true =
          arrive-holds m key t node_r node_s node_s ∙ found in
        let (e, h) = root_edge m key node_r node_s t v below in
        let (edge, (even, ne), old_p, old_l) =
          arrive-IsEdge m Any key t node_r node_s node_s e h tt (Every-Any t) in
        let (starts, c) = cut-root m key node_r node_s t v below found in
        let path = arrive-IsPath m key t node_r node_s node_s e h v.s_out v.proper starts in
        let leaf_ok : address r.leaf ≡ r.leaf = omega (arith, even) in
        let cleaned = cleanup-cut m s1 key r path (even, ne) in
        let value : lookup m key t ≡ (m r.leaf).value =
          sym (arrive-lookup m key (start node_r node_s t) t refl) ∙ rw hit refl in
        (
          cut m key r,
          prune m key t,
          s1,
          r.leaf,
          r.successor,
          rw value (
              rw (bst_remove, sought)
                (rw hit (rw leaf_ok (rw edge (rw (equal_self r.leaf) (rw cleaned refl)))))),
          same,
          equal_hit (m r.leaf).key key hit,
          prune-Loses m key node_r node_s t v below found,
          cut-IsValid m key node_r node_s t v below c,
          c.reads,
        )
