-- ===== src/Bst/Loss.antt =====
-- src/bst-aravind: which nodes a tree has lost after a removal.
use qsense.Prelude.{ℕ, ◌+◌, ◌<◌, ◌≡◌, true, ◌==◌, ltb, if◌then◌else◌, arith, Bool-cases, inl, inr}
use qsense.DoubleLlist.{Ptr}
use qsense.Bst.{Heap, inf0, SeekRecord}
use qsense.Bst.Tree.{Tree, leaf, node, root}
use qsense.Bst.Seek.{arrive, start}
use qsense.Bst.Order.{IsValid}
use qsense.Bst.Bind.{holds}
use qsense.Bst.Prune.{prune, over_left, over_right}

-- Whether two addresses are the same, as a number.
abbrev pub one_at : Ptr → Ptr → ℕ
one_at a x = if x == a then 1 else 0

-- How often an address is that of a leaf, and of an internal node.
abbrev pub leaf_count : Ptr → Tree → ℕ
leaf_count x (leaf a) = one_at a x
leaf_count x (node a t u) = leaf_count x t + leaf_count x u

abbrev pub inner_count : Ptr → Tree → ℕ
inner_count x (leaf a) = 0
inner_count x (node a t u) = one_at a x + inner_count x t + inner_count x u

-- From `t` to `t1`, exactly the leaf `freed` and the internal node `above` are gone.
abbrev pub Loses : (t t1 : Tree) → (freed above : Ptr) → Type 0
Loses t t1 freed above =
    (x : Ptr)
    → (leaf_count x t ≡ leaf_count x t1 + one_at freed x)
      × (inner_count x t ≡ inner_count x t1 + one_at above x)

-- The same of a tree that is more than a leaf.
abbrev LosesBelow : (t t1 : Tree) → SeekRecord → Type 0
LosesBelow (leaf a) t1 r = Unit
LosesBelow (node a t u) t1 r = Loses (node a t u) t1 r.leaf r.successor

module _ (m : Heap) (key : ℕ) (a q : Ptr) where
  -- The record at a child of the node `a`, which hangs below `q`.
  abbrev at_child : Tree → SeekRecord
  at_child t = record { ancestor = q; successor = a; parent = a; leaf = root t }

  Loses-left :
      (t u : Tree)
      → LosesBelow t (prune m key t) (arrive m key (at_child t) t)
      → (let r = arrive m key (at_child t) t in
          Loses (node a t u) (over_left a t (prune m key t) u) r.leaf r.successor)
  Loses-left (leaf b) u below x = (omega arith, omega arith)
  Loses-left (node b t v) u below x =
      let (leaves, inners) = below x in (omega (arith, leaves), omega (arith, inners))

  Loses-right :
      (t u : Tree)
      → LosesBelow u (prune m key u) (arrive m key (at_child u) u)
      → (let r = arrive m key (at_child u) u in
          Loses (node a t u) (over_right a t u (prune m key u)) r.leaf r.successor)
  Loses-right t (leaf b) below x = (omega arith, omega arith)
  Loses-right t (node b u v) below x =
      let (leaves, inners) = below x in (omega (arith, leaves), omega (arith, inners))

prune-LosesBelow :
    (m : Heap) (key : ℕ) (t : Tree) (anc above q : Ptr)
    → (let r : SeekRecord = record {
      ancestor = anc;
      successor = above;
      parent = q;
      leaf = root t;
    } in
        LosesBelow t (prune m key t) (arrive m key r t))
prune-LosesBelow m key (leaf a) anc above q = tt
prune-LosesBelow m key (node a t u) anc above q = elim (Bool-cases (ltb key (m a).key)) [
  | inl less ↦ rw less (Loses-left m key a q t u (prune-LosesBelow m key t q a a))
  | inr more ↦ rw more (Loses-right m key a q t u (prune-LosesBelow m key u q a a))
]

-- A removal from a valid tree that holds the key takes out the leaf where its seek arrives, and the
-- successor.
pub prune-Loses :
    (m : Heap) (key : ℕ) (node_r node_s : Ptr) (t : Tree)
    → IsValid m node_r node_s t
    → key < inf0
    → holds m key t ≡ true
    → (let r = arrive m key (start node_r node_s t) t in Loses t (prune m key t) r.leaf r.successor)
prune-Loses m key node_r node_s (leaf a) v below found =
    let c = v.crowned in absurd (ground (arith, c, found, below))
prune-Loses m key node_r node_s (node a t u) v below found =
    prune-LosesBelow m key (node a t u) node_r node_s node_s
