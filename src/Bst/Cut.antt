-- ===== src/Bst/Cut.antt =====
-- src/bst-aravind: the three CASes of a removal while no other thread interferes.
use qsense.Prelude.{
  ℕ, ◌<◌, ◌≤◌, ◌≡◌, ◌≢◌, ◌∙◌, sym, subst, Bool, true, false, ◌==◌, ltb, if◌then◌else◌, arith,
  Bool-cases, inl, inr,
}
use qsense.DoubleLlist.{Ptr}
use qsense.Bst.{
  Heap, Side, left_side, right_side, side, child, set_child, opposite, SeekRecord, flag, tag,
}
use qsense.Bst.Tree.{
  Tree, leaf, node, root, IsTree, lookup, Avoids, IsProper, Same-IsTree, Same-lookup, Avoids-Same,
}
use qsense.Bst.Seek.{arrive, root-IsAddress}
use qsense.Bst.Change.{
  Every, Changed, Changed-left, Changed-right, child_same, set_child_self, set_child_other,
  set_child-keys, set_child_ne, side_less, side_more,
}
use qsense.Bst.Order.{IsOrdered, Leaves-lookup, Leaves-imply}
use qsense.Bst.Prune.{prune, over_left, over_right}

-- The map without a key.
abbrev pub unbind : (key : ℕ) → (k v : ℕ) → ℕ
unbind key k v = if k == key then 0 else v

-- The heap after the edge to the leaf is flagged, that to its sibling tagged, and the sibling moved up.
abbrev pub cut : Heap → (key : ℕ) → SeekRecord → Heap
cut m key r =
    let at = side key (m r.parent).key in
    let sibling = child m r.parent (opposite at) in
    set_child
      (set_child (set_child m r.parent at (flag r.leaf)) r.parent (opposite at) (tag sibling))
      r.ancestor (side key (m r.ancestor).key) sibling

-- All nodes were there before.
abbrev pub Any : Ptr → Type 0
Any x = Unit

pub Every-Any : (t : Tree) → Every Any t
Every-Any (leaf a) = tt
Every-Any (node a t u) = (tt, Every-Any t, Every-Any u)

pub cut-keys : (m : Heap) (key : ℕ) (r : SeekRecord) (x : Ptr) → (cut m key r x).key ≡ (m x).key
cut-keys m key r x =
    let at = side key (m r.parent).key in
    let sibling = child m r.parent (opposite at) in
    let m1 = set_child m r.parent at (flag r.leaf) in
    let m2 = set_child m1 r.parent (opposite at) (tag sibling) in
    set_child-keys m2 r.ancestor (side key (m r.ancestor).key) sibling x
    ∙ (set_child-keys m1 r.parent (opposite at) (tag sibling) x
        ∙ set_child-keys m r.parent at (flag r.leaf) x)

pub cut_ne :
    (m : Heap) (key : ℕ) (r : SeekRecord) (x : Ptr)
    → x ≢ r.ancestor
    → x ≢ r.parent
    → cut m key r x ≡ m x
cut_ne m key r x anc par =
    let at = side key (m r.parent).key in
    let sibling = child m r.parent (opposite at) in
    let m1 = set_child m r.parent at (flag r.leaf) in
    let m2 = set_child m1 r.parent (opposite at) (tag sibling) in
    set_child_ne m2 r.ancestor (side key (m r.ancestor).key) sibling x anc
    ∙ (set_child_ne m1 r.parent (opposite at) (tag sibling) x par
        ∙ set_child_ne m r.parent at (flag r.leaf) x par)

module _ (m : Heap) (key : ℕ) where
  -- A removal below the edge from `q`, where the leaf to go is a child of `a`: its sibling `u` stays.
  cut-child :
      (q a b : Ptr) (u t : Tree) (s : Side)
      → side key (m a).key ≡ s
      → child m a (opposite s) ≡ root u
      → IsTree m (root u) u
      → q ≢ a
      → Avoids q u
      → Avoids a u
      → ((x : Ptr) → Avoids x t → x ≢ a)
      → ((k : ℕ) → lookup m k u ≡ unbind key k (lookup m k t))
      → (let r : SeekRecord = record { ancestor = q; successor = a; parent = a; leaf = b } in
          Changed m (cut m key r) Any q (side key (m q).key) t u (unbind key))
  cut-child q a b u t s here to_u hu q_a q_u a_u out reads =
      let r : SeekRecord = record { ancestor = q; successor = a; parent = a; leaf = b } in
      let at = side key (m a).key in
      let sibling = child m a (opposite at) in
      let m1 = set_child m a at (flag b) in
      let m2 = set_child m1 a (opposite at) (tag sibling) in
      let sq = side key (m q).key in
      let q_same : m2 q ≡ m q =
        set_child_ne m1 a (opposite at) (tag sibling) q q_a ∙ set_child_ne m a at (flag b) q q_a in
      let same =
        Avoids-Same m (cut m key r) q a a (λ x ne_q ne_a ne. cut_ne m key r x ne_q ne_a) u q_u a_u
          a_u in
      let e : sibling ≡ root u = rw here to_u in
      record {
        below =
            subst (λ p. IsTree (cut m key r) p u) (sym (set_child_self m2 q sq sibling ∙ e))
              (Same-IsTree m (cut m key r) (root u) u same hu);
        other = set_child_other m2 q sq sibling ∙ child_same m m2 q (opposite sq) q_same;
        key_same = cut-keys m key r q;
        frame = λ x ne x_t o. cut_ne m key r x ne (out x x_t);
        reads = λ k. Same-lookup m (cut m key r) k u same ∙ reads k;
      }

  -- The removal of a leaf below the edge from `q`, in a tree that is more than that leaf.
  abbrev pub CutsTo : Tree → Type 0
  CutsTo (leaf a) = Unit
  CutsTo (node a t u) =
      (anc above q : Ptr)
      → child m q (side key (m q).key) ≡ a
      → IsTree m a (node a t u)
      → IsProper (node a t u)
      → IsOrdered m (node a t u)
      → Avoids q (node a t u)
      → (let r =
            arrive m key (record { ancestor = anc; successor = above; parent = q; leaf = a })
              (node a t u) in
          ((m r.leaf).key == key) ≡ true
          → Changed m (cut m key r) Any q (side key (m q).key) (node a t u)
              (prune m key (node a t u)) (unbind key))

  -- The step at a node whose left subtree holds the leaf.
  cut_left :
      (a q : Ptr) (t u : Tree)
      → ltb key (m a).key ≡ true
      → child m q (side key (m q).key) ≡ a
      → IsTree m a (node a t u)
      → IsProper (node a t u)
      → IsOrdered m (node a t u)
      → Avoids q (node a t u)
      → (let r =
            arrive m key (record { ancestor = q; successor = a; parent = a; leaf = root t }) t in
          ((m r.leaf).key == key) ≡ true
          → CutsTo t
          → Changed m
              (cut m key r)
              Any
              q
              (side key (m q).key)
              (node a t u)
              (over_left a t (prune m key t) u)
              (unbind key))
  cut_left a q (leaf b) u less to_a (at, ok, ht, hu) (at_, au, tu, ut, pt, pu) (lt, ge, ot, ou)
        (q_a, q_t, q_u) hit ih =
      let (e, good) = root-IsAddress m (m a).right u hu in
      let tree_u = subst (λ p. IsTree m p u) e hu in
      let out : (k : ℕ) → k < (m a).key → lookup m k u ≡ 0 = λ k low. Leaves-lookup m k u (
        Leaves-imply m (λ j. (m a).key ≤ j) (λ j. j ≢ k)
          (λ j le ej. absurd (omega (arith, le, low, ej))) u ge) in
      let reads : (k : ℕ) → lookup m k u ≡ unbind key k (lookup m k (node a (leaf b) u)) = λ k.
        elim (Bool-cases (ltb k (m a).key)) [
          | inl low ↦ rw low (rw (out k (ground (arith, low))) (ground (arith, hit)))
          | inr high ↦ rw high (ground (arith, high, less))
        ] in
      cut-child q a b u (node a (leaf b) u) left_side (side_less key (m a).key less) e tree_u q_a
        q_u au (λ x o. o.0) reads
  cut_left a q (node b t v) u less to_a (at, ok, ht, hu) (at_, au, tu, ut, pt, pu) (lt, ge, ot, ou)
        (q_a, q_t, q_u) hit ih =
      let (e, good) = root-IsAddress m (m a).left (node b t v) ht in
      let r =
        arrive m key (record { ancestor = q; successor = a; parent = a; leaf = b }) (node b t v) in
      let m1 = cut m key r in
      let w = node b t v in
      let tree = subst (λ p. IsTree m p w) e ht in
      let at_left = λ (s : Side). Changed m m1 Any a s w (prune m key w) (unbind key) in
      Changed-left m m1 Any q a (side key (m q).key) w (prune m key w) u (unbind key) to_a ok q_a
        q_t tt au ut (Every-Any u)
        (subst at_left (side_less key (m a).key less) (ih q a a (rw less e) tree pt ot at_ hit))
        (λ k x le. ground (arith, le, less)) hu

  -- The same at the right.
  cut_right :
      (a q : Ptr) (t u : Tree)
      → ltb key (m a).key ≡ false
      → child m q (side key (m q).key) ≡ a
      → IsTree m a (node a u t)
      → IsProper (node a u t)
      → IsOrdered m (node a u t)
      → Avoids q (node a u t)
      → (let r =
            arrive m key (record { ancestor = q; successor = a; parent = a; leaf = root t }) t in
          ((m r.leaf).key == key) ≡ true
          → CutsTo t
          → Changed m
              (cut m key r)
              Any
              q
              (side key (m q).key)
              (node a u t)
              (over_right a u t (prune m key t))
              (unbind key))
  cut_right a q (leaf b) u more to_a (at, ok, hu, ht) (au, at_, ut, tu, pu, pt) (lt, ge, ou, ot)
        (q_a, q_u, q_t) hit ih =
      let (e, good) = root-IsAddress m (m a).left u hu in
      let tree_u = subst (λ p. IsTree m p u) e hu in
      let out : (k : ℕ) → (m a).key ≤ k → lookup m k u ≡ 0 = λ k high. Leaves-lookup m k u (
        Leaves-imply m (λ j. j < (m a).key) (λ j. j ≢ k)
          (λ j low ej. absurd (omega (arith, low, high, ej))) u lt) in
      let reads : (k : ℕ) → lookup m k u ≡ unbind key k (lookup m k (node a u (leaf b))) = λ k.
        elim (Bool-cases (ltb k (m a).key)) [
          | inl low ↦ rw low (ground (arith, low, more))
          | inr high ↦ rw high (rw (out k (ground (arith, high))) (ground (arith, hit)))
        ] in
      cut-child q a b u (node a u (leaf b)) right_side (side_more key (m a).key more) e tree_u q_a
        q_u au (λ x o. o.0) reads
  cut_right a q (node b t v) u more to_a (at, ok, hu, ht) (au, at_, ut, tu, pu, pt) (lt, ge, ou, ot)
        (q_a, q_u, q_t) hit ih =
      let (e, good) = root-IsAddress m (m a).right (node b t v) ht in
      let r =
        arrive m key (record { ancestor = q; successor = a; parent = a; leaf = b }) (node b t v) in
      let m1 = cut m key r in
      let w = node b t v in
      let tree = subst (λ p. IsTree m p w) e ht in
      let at_right = λ (s : Side). Changed m m1 Any a s w (prune m key w) (unbind key) in
      Changed-right m m1 Any q a (side key (m q).key) w (prune m key w) u (unbind key) to_a ok q_a
        q_t tt au ut (Every-Any u)
        (subst at_right (side_more key (m a).key more) (ih q a a (rw more e) tree pt ot at_ hit))
        (λ k x less. ground (arith, less, more)) hu

  -- A removal prunes the tree and unbinds the key.
  pub cut-Changed : (t : Tree) → CutsTo t
  cut-Changed (leaf a) = tt
  cut-Changed (node a t u) = λ anc above q to_a h proper ordered out hit.
      let rt = arrive m key (record { ancestor = q; successor = a; parent = a; leaf = root t }) t in
      let ru = arrive m key (record { ancestor = q; successor = a; parent = a; leaf = root u }) u in
      let hit_at = λ (b : Bool). ((m (if b then rt else ru).leaf).key == key) ≡ true in
      elim (Bool-cases (ltb key (m a).key)) [
        | inl less ↦ rw less (
            cut_left a q t u less to_a h proper ordered out (subst hit_at less hit) (cut-Changed t))
        | inr more ↦ rw more (
            cut_right a q u t more to_a h proper ordered out (subst hit_at more hit)
              (cut-Changed u))
      ]
