-- ===== src/Bst/Bind.antt =====
-- src/bst-aravind: what `bst_insert` returns and leaves behind while no other thread interferes.
use qsense.Prelude.{
  ℕ, ◌<◌, ◌≡◌, ◌≢◌, refl, ◌∙◌, ap, subst, Bool, true, false, ◌==◌, ltb, if◌then◌else◌, arith,
  Bool-cases, inl, inr, List, [], ◌∷◌, some, ◌⊎◌,
}
use qsense.DoubleLlist.{Ptr}
use qsense.Bst.{Node, Heap, side, child, address, inf0, max, Try, bst_insert}
use qsense.Bst.Tree.{Tree, leaf, node, root, inner, IsAddress, IsTree, lookup, Avoids}
use qsense.Bst.Grow.{grow, grow-IsProper, Avoids-grow}
use qsense.Bst.Seek.{arrive, root-IsAddress, start, bst_seek-arrive}
use qsense.Bst.Change.{Every, side_less, left_of, set_child-keys, child_same}
use qsense.Bst.Order.{IsValid, root_edge, IsCrowned-root, grow-IsOrdered, grow-IsCrowned}
use qsense.Bst.Insert.{
  planted, planted_ne, planted_new, planted-max, bind, linked, IsOld, Every-IsOld, linked-Changed,
}

pub equal_self : (a : ℕ) → (a == a) ≡ true
equal_self a = ground arith

pub equal_hit : (a b : ℕ) → (a == b) ≡ true → a ≡ b
equal_hit a b e = ground (arith, e)

-- Whether a leaf with the key is in the tree.
abbrev pub holds : Heap → (key : ℕ) → Tree → Bool
holds m key (leaf a) = (m a).key == key
holds m key (node a t u) = if ltb key (m a).key then holds m key t else holds m key u

pub arrive-holds :
    (m : Heap) (key : ℕ) (t : Tree) (anc above q : Ptr)
    → (let r =
          arrive m key
            (record { ancestor = anc; successor = above; parent = q; leaf = root t })
            t in
        ((m r.leaf).key == key) ≡ holds m key t)
arrive-holds m key (leaf a) anc above q = refl
arrive-holds m key (node a t u) anc above q = elim (Bool-cases (ltb key (m a).key)) [
  | inl less ↦ rw less (arrive-holds m key t q a a)
  | inr more ↦ rw more (arrive-holds m key u q a a)
]

-- The edge at which a search has arrived.
abbrev pub IsEdge : Heap → (Ptr → Type 0) → (key : ℕ) → (parent below : Ptr) → Type 0
IsEdge m Old key parent b =
    (child m parent (side key (m parent).key) ≡ b) × IsAddress b × Old parent × Old b

pub arrive-IsEdge :
    (m : Heap) (Old : Ptr → Type 0) (key : ℕ) (t : Tree) (anc above q : Ptr)
    → child m q (side key (m q).key) ≡ root t
    → IsTree m (root t) t
    → Old q
    → Every Old t
    → (let r =
          arrive m key
            (record { ancestor = anc; successor = above; parent = q; leaf = root t })
            t in
        IsEdge m Old key r.parent r.leaf)
arrive-IsEdge m Old key (leaf a) anc above q e (at, ok, l, r) oq o = (e, ok, oq, o)
arrive-IsEdge m Old key (node a t u) anc above q e (at, ok, ht, hu) oq (o, ot, ou) =
    elim (Bool-cases (ltb key (m a).key)) [
      | inl less ↦
          let (e1, good) = root-IsAddress m (m a).left t ht in
          rw less
            (arrive-IsEdge m Old key t q a a (rw less e1) (subst (λ p. IsTree m p t) e1 ht) o ot)
      | inr more ↦
          let (e1, good) = root-IsAddress m (m a).right u hu in
          rw more
            (arrive-IsEdge m Old key u q a a (rw more e1) (subst (λ p. IsTree m p u) e1 hu) o ou)
    ]

-- A round in which the other threads do nothing.
abbrev pub quiet : Try
quiet = record { before_cas = λ m. m; tagging = (λ m. m) ∷ [] }

-- Two blocks for the new nodes, outside the tree.
pub record IsSpare (node_r node_s bi bn : Ptr) (t : Tree) : Type 0 where
  pub bi_ok : IsAddress bi
  pub bn_ok : IsAddress bn
  pub differ : bi ≢ bn
  pub bi_out : Avoids bi t
  pub bn_out : Avoids bn t
  pub r_old : IsOld bi bn node_r
  pub s_old : IsOld bi bn node_s

pub bst_insert-present :
    (m : Heap) (key val : ℕ) (node_r node_s bi bn : Ptr) (t : Tree) (fuel : ℕ) (tries : List Try)
    → IsValid m node_r node_s t
    → key < inf0
    → inner t < fuel
    → holds m key t ≡ true
    → bst_insert fuel (quiet ∷ tries) m false bi bn key val node_r ≡ some (false, m)
unfolding bst_insert
bst_insert-present m key val node_r node_s bi bn t fuel tries v below lt found =
    let r = arrive m key (start node_r node_s t) t in
    let hit : ((m r.leaf).key == key) ≡ true = arrive-holds m key t node_r node_s node_s ∙ found in
    rw (bst_insert, bst_seek-arrive m key node_r node_s t fuel v.rooted below lt) (rw hit refl)

bst_insert-linked :
    (m : Heap) (key val : ℕ) (node_r node_s bi bn : Ptr) (t : Tree) (fuel : ℕ) (tries : List Try)
    → IsValid m node_r node_s t
    → IsSpare node_r node_s bi bn t
    → key < inf0
    → inner t < fuel
    → holds m key t ≡ false
    → bst_insert fuel (quiet ∷ tries) m false bi bn key val node_r
      ≡ some (true, linked m key val bi bn (arrive m key (start node_r node_s t) t))
unfolding bst_insert
bst_insert-linked m key val node_r node_s bi bn t fuel tries v w below lt absent =
    let r = arrive m key (start node_r node_s t) t in
    let miss : ((m r.leaf).key == key) ≡ false =
      arrive-holds m key t node_r node_s node_s ∙ absent in
    let (e, h) = root_edge m key node_r node_s t v below in
    let (edge, (even, ne), (pi, pn), (li, ln)) =
      arrive-IsEdge m (IsOld bi bn) key t node_r node_s node_s e h w.s_old
        (Every-IsOld bi bn t w.bi_out w.bn_out) in
    let p = planted m key val bi bn r.leaf in
    let same = planted_ne m key val bi bn r.leaf w.differ li ln r.parent pi pn in
    let la : address r.leaf ≡ r.leaf = omega (arith, even) in
    let ba : address bi ≡ bi = omega (arith, (w.bi_ok).0) in
    let at = side key (m r.parent).key in
    let seen : child p r.parent at ≡ r.leaf = child_same m p r.parent at same ∙ edge in
    rw (bst_insert, bst_seek-arrive m key node_r node_s t fuel v.rooted below lt)
      (rw miss (rw la (rw ba (rw seen (rw (equal_self r.leaf) refl)))))

-- What an insertion leaves: a valid tree that binds the key, and reads as before elsewhere.
linked-IsValid :
    (m : Heap) (key val : ℕ) (node_r node_s bi bn : Ptr) (t : Tree)
    → IsValid m node_r node_s t
    → IsSpare node_r node_s bi bn t
    → key < inf0
    → holds m key t ≡ false
    → (let m1 = linked m key val bi bn (arrive m key (start node_r node_s t) t) in
        let t1 = grow m key bi bn t in
        IsValid m1 node_r node_s t1 × ((k : ℕ) → lookup m1 k t1 ≡ bind key val k (lookup m k t)))
linked-IsValid m key val node_r node_s bi bn t v w below absent =
    let r = arrive m key (start node_r node_s t) t in
    let t1 = grow m key bi bn t in
    let miss : ((m r.leaf).key == key) ≡ false =
      arrive-holds m key t node_r node_s node_s ∙ absent in
    let (to_s, s_ok, h0, low) = v.rooted in
    let (e, h) = root_edge m key node_r node_s t v below in
    let old = Every-IsOld bi bn t w.bi_out w.bn_out in
    let (edge, ok, (pi, pn), (li, ln)) =
      arrive-IsEdge m (IsOld bi bn) key t node_r node_s node_s e h w.s_old old in
    let p = planted m key val bi bn r.leaf in
    let m1 = linked m key val bi bn r in
    let keys = set_child-keys p r.parent (side key (m r.parent).key) bi in
    let c =
      linked-Changed m key val bi bn w.differ w.bi_ok w.bn_ok t node_r node_s node_s e h v.proper
        v.s_out w.s_old w.bi_out w.bn_out miss in
    let same : (x : Ptr) → IsOld bi bn x → (m1 x).key ≡ (m x).key = λ x (xi, xn).
      keys x
      ∙ ap (λ (n : Node). n.key) (planted_ne m key val bi bn r.leaf w.differ li ln x xi xn) in
    let new : (m1 bn).key ≡ key =
      keys bn ∙ ap (λ (n : Node). n.key) (planted_new m key val bi bn r.leaf w.differ li ln) in
    let top : (m1 bi).key ≡ max key (m r.leaf).key =
      keys bi ∙ planted-max m key val bi bn r.leaf w.differ li ln in
    let less : ltb key (m node_s).key ≡ true = rw v.s_key (ground (arith, below)) in
    let here =
      subst (λ s. IsTree m1 (child m1 node_s s) t1) (side_less key (m node_s).key less) c.below in
    let crowned =
      grow-IsCrowned m m1 (IsOld bi bn) key bi bn same below t node_r node_s node_s top old
        v.crowned in
    (
      record {
        rooted = (
          left_of (c.frame node_r v.apart v.r_out w.r_old) ∙ to_s,
          s_ok,
          here,
          IsCrowned-root m1 t1 crowned,
        );
        s_key = same node_s w.s_old ∙ v.s_key;
        crowned = crowned;
        proper = grow-IsProper m key bi bn t v.proper w.bi_out w.bn_out w.differ;
        ordered =
            grow-IsOrdered m m1 (IsOld bi bn) key bi bn same new t node_r node_s node_s top miss old
              v.ordered;
        apart = v.apart;
        r_out = Avoids-grow m key bi bn node_r t v.r_out (w.r_old).0 (w.r_old).1;
        s_out = Avoids-grow m key bi bn node_s t v.s_out (w.s_old).0 (w.s_old).1;
      },
      c.reads,
    )

-- `bst_insert` of a key below the sentinels', in a valid tree and with two spare blocks, where no other
-- thread interferes and the fuel exceeds the number of internal nodes: if a leaf has the key, the result is
-- false and the heap as before; otherwise it is true, and the heap holds a valid tree that maps the key to
-- the value and every other key as before.
pub bst_insert-binds :
    (m : Heap) (key val : ℕ) (node_r node_s bi bn : Ptr) (t : Tree) (fuel : ℕ) (tries : List Try)
    → IsValid m node_r node_s t
    → IsSpare node_r node_s bi bn t
    → key < inf0
    → inner t < fuel
    → (let result = bst_insert fuel (quiet ∷ tries) m false bi bn key val node_r in
        ((holds m key t ≡ true) × (result ≡ some (false, m)))
        ⊎ ((holds m key t ≡ false)
            × ((m1 : Heap) × (t1 : Tree) × (result ≡ some (true, m1))
                × IsValid m1 node_r node_s t1
                × ((k : ℕ) → lookup m1 k t1 ≡ (if k == key then val else lookup m k t)))))
bst_insert-binds m key val node_r node_s bi bn t fuel tries v w below lt =
    elim (Bool-cases (holds m key t)) [
      | inl found ↦
          inl
            (found, bst_insert-present m key val node_r node_s bi bn t fuel tries v below lt found)
      | inr absent ↦
          let (valid, reads) = linked-IsValid m key val node_r node_s bi bn t v w below absent in
          inr (
            absent,
            (
              linked m key val bi bn (arrive m key (start node_r node_s t) t),
              grow m key bi bn t,
              bst_insert-linked m key val node_r node_s bi bn t fuel tries v w below lt absent,
              valid,
              reads,
            ),
          )
    ]
