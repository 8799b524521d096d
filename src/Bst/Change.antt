-- ===== src/Bst/Change.antt =====
-- src/bst-aravind: a change below one edge of the tree, and how it reads from the edge above.
use qsense.Prelude.{
  ℕ, ◌<◌, ◌≤◌, ◌≡◌, ◌≢◌, refl, ◌∙◌, sym, ap, true, false, ltb, arith, Bool-cases, inl, inr,
}
use qsense.DoubleLlist.{Ptr}
use qsense.Bst.{Node, Heap, Side, left_side, right_side, side, child, set_child, opposite}
use qsense.Bst.Tree.{
  Tree, leaf, node, IsAddress, IsTree, lookup, Avoids, Disjoint, Same, Same-IsTree, Same-lookup,
}

-- All nodes of a tree satisfy a predicate.
abbrev pub Every : (Ptr → Type 0) → Tree → Type 0
Every P (leaf a) = P a
Every P (node a t u) = P a × Every P t × Every P u

-- The tree `t` below an edge of `q` has become `t1`: the other edge and the key of `q` are as before, so
-- are the nodes that were there before and are not in `t`, and the values read are those that `f` gives.
pub record Changed (m m1 : Heap) (Old : Ptr → Type 0) (q : Ptr) (s : Side) (t t1 : Tree)
    (f : ℕ → ℕ → ℕ) : Type 0 where
  pub below : IsTree m1 (child m1 q s) t1
  pub other : child m1 q (opposite s) ≡ child m q (opposite s)
  pub key_same : (m1 q).key ≡ (m q).key
  pub frame : (x : Ptr) → x ≢ q → Avoids x t → Old x → m1 x ≡ m x
  pub reads : (k : ℕ) → lookup m1 k t1 ≡ f k (lookup m k t)

pub left_of : {x y : Node} → x ≡ y → x.left ≡ y.left
left_of e = ap (λ (n : Node). n.left) e

pub right_of : {x y : Node} → x ≡ y → x.right ≡ y.right
right_of e = ap (λ (n : Node). n.right) e

pub side_less : (key at : ℕ) → ltb key at ≡ true → side key at ≡ left_side
side_less key at less = rw less refl

pub side_more : (key at : ℕ) → ltb key at ≡ false → side key at ≡ right_side
side_more key at more = rw more refl

pub child_same : (m m1 : Heap) (q : Ptr) (s : Side) → m1 q ≡ m q → child m1 q s ≡ child m q s
child_same m m1 q left_side e = left_of e
child_same m m1 q right_side e = right_of e

pub set_child_self : (m : Heap) (q : Ptr) (s : Side) (p : ℕ) → child (set_child m q s p) q s ≡ p
set_child_self m q left_side p = ground arith
set_child_self m q right_side p = ground arith

pub set_child_other :
    (m : Heap) (q : Ptr) (s : Side) (p : ℕ)
    → child (set_child m q s p) q (opposite s) ≡ child m q (opposite s)
set_child_other m q left_side p = ground arith
set_child_other m q right_side p = ground arith

pub set_child_key : (m : Heap) (q : Ptr) (s : Side) (p : ℕ) → (set_child m q s p q).key ≡ (m q).key
set_child_key m q left_side p = ground arith
set_child_key m q right_side p = ground arith

-- No key changes.
pub set_child-keys :
    (m : Heap) (q : Ptr) (s : Side) (p : ℕ) (x : Ptr) → (set_child m q s p x).key ≡ (m x).key
set_child-keys m q left_side p x = ground arith
set_child-keys m q right_side p x = ground arith

pub set_child_ne :
    (m : Heap) (q : Ptr) (s : Side) (p : ℕ) (x : Ptr) → x ≢ q → set_child m q s p x ≡ m x
set_child_ne m q left_side p x ne = ground arith
set_child_ne m q right_side p x ne = ground arith

frame-Same :
    (m m1 : Heap) (Old : Ptr → Type 0) (a : Ptr) (t : Tree)
    → ((x : Ptr) → x ≢ a → Avoids x t → Old x → m1 x ≡ m x)
    → (u : Tree) → Avoids a u
    → Disjoint u t
    → Every Old u
    → Same m m1 u
frame-Same m m1 Old a t h (leaf b) p d o = h b (λ e. p (sym e)) d o
frame-Same m m1 Old a t h (node b u v) (p, pu, pv) (d, du, dv) (o, ou, ov) = (
  h b (λ e. p (sym e)) d o,
  frame-Same m m1 Old a t h u pu du ou,
  frame-Same m m1 Old a t h v pv dv ov,
)

module _ (m m1 : Heap) (Old : Ptr → Type 0) (q a : Ptr) (s : Side) (t t1 u : Tree) (f : ℕ → ℕ → ℕ)
    (to_a : child m q s ≡ a) (ok : IsAddress a) (apart : q ≢ a) (q_t : Avoids q t) (old_q : Old q)
    (a_u : Avoids a u) (u_t : Disjoint u t) (old_u : Every Old u) where
  -- A change at the left of a node, under a function that leaves the keys from the node's on.
  pub Changed-left :
      Changed m m1 Old a left_side t t1 f
      → ((k v : ℕ) → (m a).key ≤ k → f k v ≡ v)
      → IsTree m (m a).right u
      → Changed m m1 Old q s (node a t u) (node a t1 u) f
  Changed-left c keeps hu =
      let q_same = c.frame q apart q_t old_q in
      let u_same = frame-Same m m1 Old a t c.frame u a_u u_t old_u in
      record {
        below = (
          child_same m m1 q s q_same ∙ to_a,
          ok,
          c.below,
          rw c.other (Same-IsTree m m1 (m a).right u u_same hu),
        );
        other = child_same m m1 q (opposite s) q_same;
        key_same = rw q_same refl;
        frame = λ x ne (ne_a, x_t, x_u) o. c.frame x ne_a x_t o;
        reads = λ k. rw c.key_same (elim (Bool-cases (ltb k (m a).key)) [
          | inl less ↦ rw less (c.reads k)
          | inr more ↦
              rw more
                (Same-lookup m m1 k u u_same ∙ sym (keeps k (lookup m k u) (ground (arith, more))))
        ]);
      }

  -- A change at the right of a node, under a function that leaves the keys below the node's.
  pub Changed-right :
      Changed m m1 Old a right_side t t1 f
      → ((k v : ℕ) → k < (m a).key → f k v ≡ v)
      → IsTree m (m a).left u
      → Changed m m1 Old q s (node a u t) (node a u t1) f
  Changed-right c keeps hu =
      let q_same = c.frame q apart q_t old_q in
      let u_same = frame-Same m m1 Old a t c.frame u a_u u_t old_u in
      record {
        below = (
          child_same m m1 q s q_same ∙ to_a,
          ok,
          rw c.other (Same-IsTree m m1 (m a).left u u_same hu),
          c.below,
        );
        other = child_same m m1 q (opposite s) q_same;
        key_same = rw q_same refl;
        frame = λ x ne (ne_a, x_u, x_t) o. c.frame x ne_a x_t o;
        reads = λ k. rw c.key_same (elim (Bool-cases (ltb k (m a).key)) [
          | inl less ↦
              rw less
                (Same-lookup m m1 k u u_same ∙ sym (keeps k (lookup m k u) (ground (arith, less))))
          | inr more ↦ rw more (c.reads k)
        ]);
      }
