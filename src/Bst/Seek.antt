-- ===== src/Bst/Seek.antt =====
-- src/bst-aravind: where `bst_seek` arrives, and that `bst_search` reads the map of the tree.
use qsense.Prelude.{
  ℕ, zero, suc, ◌<◌, ◌≡◌, refl, ap, subst, true, false, ◌==◌, ltb, if◌then◌else◌, arith, Bool-cases,
  inl, inr, some,
}
use qsense.DoubleLlist.{Ptr, null}
use qsense.Bst.{
  Heap, side, child, address, is_tagged, inf0, SeekRecord, seek_loop, bst_seek, bst_search,
}
use qsense.Bst.Tree.{Tree, leaf, node, root, inner, IsAddress, IsTree, IsRooted, lookup}

-- The record at the end of a search that stands at the tree's root.
abbrev pub arrive : Heap → (key : ℕ) → SeekRecord → Tree → SeekRecord
arrive m key r (leaf a) = r
arrive m key r (node a t u) =
    if ltb key (m a).key
    then arrive m key
        (record { ancestor = r.parent; successor = r.leaf; parent = r.leaf; leaf = root t }) t
    else arrive m key
        (record { ancestor = r.parent; successor = r.leaf; parent = r.leaf; leaf = root u }) u

pub root-IsAddress :
    (m : Heap) (p : ℕ) (t : Tree) → IsTree m p t → (p ≡ root t) × IsAddress (root t)
root-IsAddress m p (leaf a) (at, ok, l, r) = (at, ok)
root-IsAddress m p (node a t u) (at, ok, l, r) = (at, ok)

-- An address is not a tagged edge.
untagged : (b : Ptr) → IsAddress b → is_tagged b ≡ false
untagged b (even, ne) = ground (arith, even)

-- One round of the loop, over an edge that is neither flagged nor tagged.
seek_round :
    (m : Heap) (key : ℕ) (r : SeekRecord) (pf : ℕ) (b : Ptr) (fuel : ℕ)
    → is_tagged pf ≡ false
    → IsAddress b
    → seek_loop (suc fuel) m key r pf b
      ≡ seek_loop fuel m key
          (record { ancestor = r.parent; successor = r.leaf; parent = r.leaf; leaf = b })
          b
          (child m b (side key (m b).key))
unfolding seek_loop
seek_round m key r pf b fuel clean (even, ne) =
    let same : address b ≡ b = omega (arith, even) in
    let go : (b == null) ≡ false = ground arith in rw same (rw go (rw clean refl))

-- The loop stops at an empty edge.
seek_stop :
    (m : Heap) (key : ℕ) (r : SeekRecord) (pf fuel : ℕ)
    → seek_loop (suc fuel) m key r pf null ≡ some r
unfolding seek_loop
seek_stop m key r pf fuel = refl

seek_loop-arrive :
    (m : Heap) (key : ℕ) (t : Tree) (r : SeekRecord) (pf fuel : ℕ)
    → is_tagged pf ≡ false
    → IsTree m r.leaf t
    → inner t < fuel
    → seek_loop fuel m key r pf (child m r.leaf (side key (m r.leaf).key)) ≡ some (arrive m key r t)
seek_loop-arrive m key t r pf zero clean h lt = absurd (omega arith)
seek_loop-arrive m key (leaf a) r pf (suc fuel) clean (at, ok, l, u) lt =
    let here : child m r.leaf (side key (m r.leaf).key) ≡ null =
      rw at
        (elim (Bool-cases (ltb key (m a).key)) [ inl less ↦ rw less l | inr more ↦ rw more u ]) in
    rw here (seek_stop m key r pf fuel)
seek_loop-arrive m key (node a t u) r pf (suc fuel) clean (at, ok, l, v) lt =
    elim (Bool-cases (ltb key (m a).key)) [
      | inl less ↦
          let (e, good) = root-IsAddress m (m a).left t l in
          let here : child m r.leaf (side key (m r.leaf).key) ≡ root t = rw at (rw less e) in
          let r1 : SeekRecord = record {
            ancestor = r.parent;
            successor = r.leaf;
            parent = r.leaf;
            leaf = root t;
          } in
          let rest =
            seek_loop-arrive m key t r1 (root t) fuel (untagged (root t) good)
              (subst (λ p. IsTree m p t) e l) (omega (arith, lt)) in
          rw here (rw (seek_round m key r pf (root t) fuel clean good) (rw less rest))
      | inr more ↦
          let (e, good) = root-IsAddress m (m a).right u v in
          let here : child m r.leaf (side key (m r.leaf).key) ≡ root u = rw at (rw more e) in
          let r1 : SeekRecord = record {
            ancestor = r.parent;
            successor = r.leaf;
            parent = r.leaf;
            leaf = root u;
          } in
          let rest =
            seek_loop-arrive m key u r1 (root u) fuel (untagged (root u) good)
              (subst (λ p. IsTree m p u) e v) (omega (arith, lt)) in
          rw here (rw (seek_round m key r pf (root u) fuel clean good) (rw more rest))
    ]

pub arrive-lookup :
    (m : Heap) (key : ℕ) (r : SeekRecord) (t : Tree)
    → r.leaf ≡ root t
    → (let at = (arrive m key r t).leaf in if (m at).key == key then (m at).value else 0)
      ≡ lookup m key t
arrive-lookup m key r (leaf a) at = rw at refl
arrive-lookup m key r (node a t u) at = elim (Bool-cases (ltb key (m a).key)) [
  | inl less ↦ rw less (
      arrive-lookup m key
        (record { ancestor = r.parent; successor = r.leaf; parent = r.leaf; leaf = root t }) t refl)
  | inr more ↦ rw more (
      arrive-lookup m key
        (record { ancestor = r.parent; successor = r.leaf; parent = r.leaf; leaf = root u }) u refl)
]

-- The record with which the loop of `bst_seek` starts.
abbrev pub start : (node_r node_s : Ptr) → Tree → SeekRecord
start node_r node_s t = record {
  ancestor = node_r;
  successor = node_s;
  parent = node_s;
  leaf = root t;
}

pub bst_seek-arrive :
    (m : Heap) (key : ℕ) (node_r node_s : Ptr) (t : Tree) (fuel : ℕ)
    → IsRooted m node_r node_s t
    → key < inf0
    → inner t < fuel
    → bst_seek fuel m key node_r ≡ some (arrive m key (start node_r node_s t) t)
unfolding bst_seek
bst_seek-arrive m key node_r node_s t fuel (to_s, (even, ne), h, low) below lt =
    let s_same : address node_s ≡ node_s = omega (arith, even) in
    let (e, (even1, ne1)) = root-IsAddress m (m node_s).left t h in
    let t_same : address (root t) ≡ root t = omega (arith, even1) in
    let less : ltb key (m (root t)).key ≡ true = rw low (ground (arith, below)) in
    let rest =
      seek_loop-arrive m key t (start node_r node_s t) (root t) fuel
        (untagged (root t) (even1, ne1)) (subst (λ p. IsTree m p t) e h) lt in
    let here : child m (root t) (side key (m (root t)).key) ≡ (m (root t)).left = rw less refl in
    rw to_s (rw s_same (rw e (rw t_same (rw⁻¹ here rest))))

-- `bst_search`, with more fuel than the tree has internal nodes, returns the lookup of the key in
-- the tree, where the root leads to a tree with no edge flagged or tagged and with `inf0` at its
-- own root, and the key is below the sentinels'.
pub bst_search-lookup :
    (m : Heap) (key : ℕ) (node_r node_s : Ptr) (t : Tree) (fuel : ℕ)
    → IsRooted m node_r node_s t
    → key < inf0
    → inner t < fuel
    → bst_search fuel m key node_r ≡ some (lookup m key t)
unfolding bst_search
bst_search-lookup m key node_r node_s t fuel h below lt =
    rw (bst_search, bst_seek-arrive m key node_r node_s t fuel h below lt)
      (ap some (arrive-lookup m key (start node_r node_s t) t refl))
