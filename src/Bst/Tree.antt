-- ===== src/Bst/Tree.antt =====
-- src/bst-aravind: trees in the heap with no edge flagged or tagged, and what they map keys to.
use qsense.Prelude.{ℕ, suc, ◌+◌, ◌%◌, ◌≡◌, ◌≢◌, refl, sym, ◌==◌, ltb, if◌then◌else◌}
use qsense.DoubleLlist.{Ptr, null}
use qsense.Bst.{Heap, Side, left_side, right_side, inf0}

-- The nodes of a tree: leaves, and internal nodes over two trees.
pub data Tree : Type 0 where
  leaf : Ptr → Tree
  node : Ptr → Tree → Tree → Tree

abbrev pub root : Tree → Ptr
root (leaf a) = a
root (node a l r) = a

-- The number of internal nodes.
abbrev pub inner : Tree → ℕ
inner (leaf a) = 0
inner (node a l r) = suc (inner l + inner r)

-- An address of a node.
abbrev pub IsAddress : Ptr → Type 0
IsAddress a = (a % 4 ≡ 0) × (a ≢ null)

-- The tree that an edge leads to.
abbrev pub IsTree : Heap → (p : ℕ) → Tree → Type 0
IsTree m p (leaf a) = (p ≡ a) × IsAddress a × ((m a).left ≡ null) × ((m a).right ≡ null)
IsTree m p (node a l r) = (p ≡ a) × IsAddress a × IsTree m (m a).left l × IsTree m (m a).right r

-- The tree that holds the keys hangs below the root's left child, and its own root has the key `inf0`.
abbrev pub IsRooted : Heap → (node_r node_s : Ptr) → Tree → Type 0
IsRooted m node_r node_s t =
    ((m node_r).left ≡ node_s)
    × IsAddress node_s
    × IsTree m (m node_s).left t
    × ((m (root t)).key ≡ inf0)

-- The subtree that a search for `key` takes.
abbrev pub towards : Side → (l r : Tree) → Tree
towards left_side l r = l
towards right_side l r = r

-- The value under a key, or 0.
abbrev pub lookup : Heap → (key : ℕ) → Tree → ℕ
lookup m key (leaf a) = if (m a).key == key then (m a).value else 0
lookup m key (node a l r) = if ltb key (m a).key then lookup m key l else lookup m key r

-- A node that is not in a tree.
abbrev pub Avoids : Ptr → Tree → Type 0
Avoids x (leaf a) = x ≢ a
Avoids x (node a l r) = (x ≢ a) × Avoids x l × Avoids x r

-- No node of the first tree is in the second.
abbrev pub Disjoint : Tree → Tree → Type 0
Disjoint (leaf a) u = Avoids a u
Disjoint (node a l r) u = Avoids a u × Disjoint l u × Disjoint r u

-- No node is in a tree twice.
abbrev pub IsProper : Tree → Type 0
IsProper (leaf a) = Unit
IsProper (node a l r) =
    Avoids a l × Avoids a r × Disjoint l r × Disjoint r l × IsProper l × IsProper r

-- The heaps agree on the nodes of a tree.
abbrev pub Same : Heap → Heap → Tree → Type 0
Same m m1 (leaf a) = m1 a ≡ m a
Same m m1 (node a l r) = (m1 a ≡ m a) × Same m m1 l × Same m m1 r

pub Same-IsTree : (m m1 : Heap) (p : ℕ) (t : Tree) → Same m m1 t → IsTree m p t → IsTree m1 p t
Same-IsTree m m1 p (leaf a) e (at, ok, l, r) = (at, ok, rw e l, rw e r)
Same-IsTree m m1 p (node a l r) (e, el, er) (at, ok, hl, hr) = (
  at,
  ok,
  rw e (Same-IsTree m m1 (m a).left l el hl),
  rw e (Same-IsTree m m1 (m a).right r er hr),
)

pub Same-lookup :
    (m m1 : Heap) (key : ℕ) (t : Tree) → Same m m1 t → lookup m1 key t ≡ lookup m key t
Same-lookup m m1 key (leaf a) e = rw e refl
Same-lookup m m1 key (node a l r) (e, el, er) =
    rw e (rw (Same-lookup m m1 key l el) (rw (Same-lookup m m1 key r er) refl))

-- Heaps that differ at three nodes only agree on a tree without them.
pub Avoids-Same :
    (m m1 : Heap) (x y z : Ptr)
    → ((a : Ptr) → a ≢ x → a ≢ y → a ≢ z → m1 a ≡ m a)
    → (t : Tree) → Avoids x t
    → Avoids y t
    → Avoids z t
    → Same m m1 t
Avoids-Same m m1 x y z h (leaf a) p q r = h a (λ e. p (sym e)) (λ e. q (sym e)) (λ e. r (sym e))
Avoids-Same m m1 x y z h (node a l t) (p, pl, pr) (q, ql, qr) (r, rl, rr) = (
  h a (λ e. p (sym e)) (λ e. q (sym e)) (λ e. r (sym e)),
  Avoids-Same m m1 x y z h l pl ql rl,
  Avoids-Same m m1 x y z h t pr qr rr,
)
