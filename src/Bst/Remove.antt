-- ===== src/Bst/Remove.antt =====
-- src/bst-aravind: what `bst_remove` returns and leaves behind while no other thread interferes.
use qsense.Prelude.{
  ℕ, ◌<◌, ◌≡◌, ◌≢◌, refl, ◌∙◌, ap, subst, true, false, ◌==◌, ltb, arith, Bool-cases, inl, inr, List,
  [], ◌∷◌, some, none,
}
use qsense.DoubleLlist.{Ptr}
use qsense.Bst.{
  Heap, Side, side, opposite, child, set_child, address, flag, tag, untag, is_flagged, inf0,
  SeekRecord, Try, tag_loop, bst_cleanup, bst_remove,
}
use qsense.Bst.Tree.{Tree, leaf, node, root, inner, IsAddress, IsTree, Avoids, IsProper}
use qsense.Bst.Seek.{arrive, root-IsAddress, start, bst_seek-arrive}
use qsense.Bst.Change.{set_child_self, set_child_other, set_child_ne, set_child-keys, child_same}
use qsense.Bst.Order.{IsValid, root_edge}
use qsense.Bst.Bind.{equal_self, holds, arrive-holds, arrive-IsEdge, quiet}
use qsense.Bst.Cut.{cut, Any, Every-Any}

-- The edges that a removal moves: the parent hangs below the ancestor, and has a second child.
abbrev pub IsPath : Heap → (key : ℕ) → SeekRecord → Type 0
IsPath m key r =
    (child m r.ancestor (side key (m r.ancestor).key) ≡ r.successor)
    × (r.ancestor ≢ r.parent)
    × IsAddress r.successor
    × IsAddress (child m r.parent (opposite (side key (m r.parent).key)))

-- A search that stops at once has a path already.
abbrev pub Starts : Heap → (key : ℕ) → SeekRecord → Tree → Type 0
Starts m key r (leaf a) = IsPath m key r
Starts m key r (node a t u) = Unit

IsPath-Starts : (m : Heap) (key : ℕ) (r : SeekRecord) (t : Tree) → IsPath m key r → Starts m key r t
IsPath-Starts m key r (leaf a) p = p
IsPath-Starts m key r (node a t u) p = tt

pub arrive-IsPath :
    (m : Heap) (key : ℕ) (t : Tree) (anc above q : Ptr)
    → child m q (side key (m q).key) ≡ root t
    → IsTree m (root t) t
    → Avoids q t
    → IsProper t
    → (let r : SeekRecord = record {
      ancestor = anc;
      successor = above;
      parent = q;
      leaf = root t;
    } in
        Starts m key r t → IsPath m key (arrive m key r t))
arrive-IsPath m key (leaf a) anc above q to_a h out proper p = p
arrive-IsPath m key (node a t u) anc above q to_a (at, ok, ht, hu) (q_a, q_t, q_u)
      (a_t, a_u, tu, ut, pt, pu) p =
    let (et, good_t) = root-IsAddress m (m a).left t ht in
    let (eu, good_u) = root-IsAddress m (m a).right u hu in
    elim (Bool-cases (ltb key (m a).key)) [
      | inl less ↦
          let r : SeekRecord = record { ancestor = q; successor = a; parent = a; leaf = root t } in
          let path : IsPath m key r = (to_a, q_a, ok, rw less (rw eu good_u)) in
          rw less (
            arrive-IsPath m key t q a a (rw less et) (subst (λ x. IsTree m x t) et ht) a_t pt
              (IsPath-Starts m key r t path))
      | inr more ↦
          let r : SeekRecord = record { ancestor = q; successor = a; parent = a; leaf = root u } in
          let path : IsPath m key r = (to_a, q_a, ok, rw more (rw et good_t)) in
          rw more (
            arrive-IsPath m key u q a a (rw more eu) (subst (λ x. IsTree m x u) eu hu) a_u pu
              (IsPath-Starts m key r u path))
    ]

tag_once :
    (m : Heap) (a : Ptr) (s : Side)
    → tag_loop ((λ h. h) ∷ []) m a s ≡ some (set_child m a s (tag (child m a s)))
unfolding tag_loop
tag_once m a s = rw (equal_self (child m a s)) refl

-- `bst_cleanup` where the edge to the leaf is flagged and no other thread interferes.
cleanup_flagged :
    (m : Heap) (key : ℕ) (r : SeekRecord) (at above : Side) (sibling : Ptr)
    → side key (m r.parent).key ≡ at
    → side key (m r.ancestor).key ≡ above
    → child m r.parent at ≡ flag r.leaf
    → child m r.parent (opposite at) ≡ sibling
    → child m r.ancestor above ≡ r.successor
    → r.ancestor ≢ r.parent
    → IsAddress r.successor
    → IsAddress r.leaf
    → IsAddress sibling
    → bst_cleanup ((λ h. h) ∷ []) m r key
      ≡ some (record {
        done = true;
        removed = r.leaf;
        heap =
            set_child (set_child m r.parent (opposite at) (tag sibling)) r.ancestor above sibling;
      })
unfolding bst_cleanup
cleanup_flagged m key r at above sibling sp sa to_leaf to_sibling to_suc apart (es, ns) (el, nl)
      (eb, nb) =
    let flagged : is_flagged (flag r.leaf) ≡ true = ground (arith, el) in
    let m2 = set_child m r.parent (opposite at) (tag sibling) in
    let tagged : tag_loop ((λ h. h) ∷ []) m r.parent (opposite at) ≡ some m2 =
      tag_once m r.parent (opposite at)
      ∙ ap (λ x. some (set_child m r.parent (opposite at) (tag x))) to_sibling in
    let suc_at : child m2 r.ancestor above ≡ r.successor =
      child_same m m2 r.ancestor above
        (set_child_ne m r.parent (opposite at) (tag sibling) r.ancestor apart)
      ∙ to_suc in
    let sib_at : child m2 r.parent (opposite at) ≡ tag sibling =
      set_child_self m r.parent (opposite at) (tag sibling) in
    let untagged : untag (tag sibling) ≡ sibling = ground (arith, eb) in
    let suc_ok : address r.successor ≡ r.successor = omega (arith, es) in
    let leaf_ok : address (flag r.leaf) ≡ r.leaf = ground (arith, el) in
    rw (bst_cleanup, sp)
      (rw to_leaf (
        rw flagged (
          rw tagged (
            rw sp (
              rw sa (
                rw to_leaf (
                  rw flagged (
                    rw sib_at (
                      rw suc_at (
                        rw suc_ok
                          (rw untagged (rw leaf_ok (rw (equal_self r.successor) refl)))))))))))))

-- `bst_cleanup` once the flag is set moves the sibling up.
pub bst_cleanup-cut :
    (m : Heap) (key : ℕ) (r : SeekRecord)
    → IsPath m key r
    → IsAddress r.leaf
    → (let at = side key (m r.parent).key in
        bst_cleanup ((λ h. h) ∷ []) (set_child m r.parent at (flag r.leaf)) r key
        ≡ some (record { done = true; removed = r.leaf; heap = cut m key r }))
bst_cleanup-cut m key r (edge, apart, suc_ok, sib_ok) ok =
    let at = side key (m r.parent).key in
    let keys = set_child-keys m r.parent at (flag r.leaf) in
    let above = side key (m r.ancestor).key in
    let m1 = set_child m r.parent at (flag r.leaf) in
    let anc_same = set_child_ne m r.parent at (flag r.leaf) r.ancestor apart in
    cleanup_flagged m1 key r at above (child m r.parent (opposite at))
      (ap (side key) (keys r.parent)) (ap (side key) (keys r.ancestor))
      (set_child_self m r.parent at (flag r.leaf)) (set_child_other m r.parent at (flag r.leaf))
      (child_same m m1 r.ancestor above anc_same ∙ edge) apart suc_ok ok sib_ok

pub bst_remove-absent :
    (m : Heap) (key : ℕ) (node_r node_s : Ptr) (t : Tree) (fuel : ℕ) (tries : List Try)
    → IsValid m node_r node_s t
    → key < inf0
    → inner t < fuel
    → holds m key t ≡ false
    → bst_remove fuel (quiet ∷ tries) m none key node_r ≡ some (0, m)
unfolding bst_remove
bst_remove-absent m key node_r node_s t fuel tries v below lt absent =
    let r = arrive m key (start node_r node_s t) t in
    let miss : ((m r.leaf).key == key) ≡ false =
      arrive-holds m key t node_r node_s node_s ∙ absent in
    rw (bst_remove, bst_seek-arrive m key node_r node_s t fuel v.rooted below lt) (rw miss refl)

pub bst_remove-cut :
    (m : Heap) (key : ℕ) (node_r node_s : Ptr) (t : Tree) (fuel : ℕ) (tries : List Try)
    → IsValid m node_r node_s t
    → key < inf0
    → inner t < fuel
    → holds m key t ≡ true
    → Starts m key (start node_r node_s t) t
    → (let r = arrive m key (start node_r node_s t) t in
        bst_remove fuel (quiet ∷ tries) m none key node_r ≡ some ((m r.leaf).value, cut m key r))
unfolding bst_remove
bst_remove-cut m key node_r node_s t fuel tries v below lt found starts =
    let r = arrive m key (start node_r node_s t) t in
    let hit : ((m r.leaf).key == key) ≡ true = arrive-holds m key t node_r node_s node_s ∙ found in
    let (e, h) = root_edge m key node_r node_s t v below in
    let (edge, (even, ne), old_p, old_l) =
      arrive-IsEdge m Any key t node_r node_s node_s e h tt (Every-Any t) in
    let path = arrive-IsPath m key t node_r node_s node_s e h v.s_out v.proper starts in
    let leaf_ok : address r.leaf ≡ r.leaf = omega (arith, even) in
    let cleaned = bst_cleanup-cut m key r path (even, ne) in
    rw (bst_remove, bst_seek-arrive m key node_r node_s t fuel v.rooted below lt)
      (rw hit (rw leaf_ok (rw edge (rw (equal_self r.leaf) (rw cleaned refl)))))
