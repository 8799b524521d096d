-- ===== src/Bst/Unbind.antt =====
-- src/bst-aravind: the tree that `bst_remove` leaves behind.
use qsense.Prelude.{
  ℕ, ◌<◌, ◌≡◌, refl, ◌∙◌, sym, subst, true, false, ◌==◌, ltb, if◌then◌else◌, arith, Bool-cases, inl,
  inr, List, ◌∷◌, some, none, ◌⊎◌,
}
use qsense.DoubleLlist.{Ptr}
use qsense.Bst.{Heap, side, child, inf0, Try, bst_remove}
use qsense.Bst.Tree.{Tree, leaf, node, inner, IsTree, lookup}
use qsense.Bst.Seek.{arrive, start, arrive-lookup}
use qsense.Bst.Change.{Changed, side_less, left_of}
use qsense.Bst.Order.{IsValid, root_edge, IsCrowned-root, IsOrdered-same}
use qsense.Bst.Bind.{holds, arrive-holds, quiet}
use qsense.Bst.Prune.{
  prune, Avoids-prune, prune-IsProper, prune-IsOrdered, prune-IsCrowned, IsCrowned-same,
}
use qsense.Bst.Remove.{Starts, bst_remove-absent, bst_remove-cut}
use qsense.Bst.Cut.{unbind, cut, cut-keys, Any, Every-Any, cut-Changed}

pub cut-IsValid :
    (m : Heap) (key : ℕ) (node_r node_s : Ptr) (t : Tree)
    → IsValid m node_r node_s t
    → key < inf0
    → (let r = arrive m key (start node_r node_s t) t in
        let m1 = cut m key r in
        let t1 = prune m key t in
        Changed m m1 Any node_s (side key (m node_s).key) t t1 (unbind key)
        → IsValid m1 node_r node_s t1)
cut-IsValid m key node_r node_s t v below c =
    let r = arrive m key (start node_r node_s t) t in
    let m1 = cut m key r in
    let t1 = prune m key t in
    let (to_s, s_ok, h0, low) = v.rooted in
    let keys = cut-keys m key r in
    let less : ltb key (m node_s).key ≡ true = rw v.s_key (ground (arith, below)) in
    let here =
      subst (λ s. IsTree m1 (child m1 node_s s) t1) (side_less key (m node_s).key less) c.below in
    let crowned = IsCrowned-same m m1 keys t1 (prune-IsCrowned m key t below v.crowned) in
    record {
      rooted = (
        left_of (c.frame node_r v.apart v.r_out tt) ∙ to_s,
        s_ok,
        here,
        IsCrowned-root m1 t1 crowned,
      );
      s_key = keys node_s ∙ v.s_key;
      crowned = crowned;
      proper = prune-IsProper m key t v.proper;
      ordered =
          IsOrdered-same m m1 Any (λ x o. keys x) t1 (Every-Any t1)
            (prune-IsOrdered m key t v.ordered);
      apart = v.apart;
      r_out = Avoids-prune m key node_r t v.r_out;
      s_out = Avoids-prune m key node_s t v.s_out;
    }

-- A valid tree that holds a key below the sentinels' is more than a leaf.
pub cut-root :
    (m : Heap) (key : ℕ) (node_r node_s : Ptr) (t : Tree)
    → IsValid m node_r node_s t
    → key < inf0
    → holds m key t ≡ true
    → Starts m key (start node_r node_s t) t
      × (let r = arrive m key (start node_r node_s t) t in
          Changed m
            (cut m key r)
            Any
            node_s
            (side key (m node_s).key)
            t
            (prune m key t)
            (unbind key))
cut-root m key node_r node_s (leaf a) v below found =
    let c = v.crowned in absurd (ground (arith, c, found, below))
cut-root m key node_r node_s (node a t u) v below found =
    let (e, h) = root_edge m key node_r node_s (node a t u) v below in
    let hit = arrive-holds m key (node a t u) node_r node_s node_s ∙ found in
    (tt, cut-Changed m key (node a t u) node_r node_s node_s e h v.proper v.ordered v.s_out hit)

-- `bst_remove` of a key below the sentinels', in a valid tree, where no other thread interferes and the
-- fuel exceeds the number of internal nodes: if no leaf has the key, the result is 0 and the heap as before;
-- otherwise it is the key's value, and the heap holds a valid tree that maps the key to 0 and every other
-- key as before.
pub bst_remove-unbinds :
    (m : Heap) (key : ℕ) (node_r node_s : Ptr) (t : Tree) (fuel : ℕ) (tries : List Try)
    → IsValid m node_r node_s t
    → key < inf0
    → inner t < fuel
    → (let result = bst_remove fuel (quiet ∷ tries) m none key node_r in
        ((holds m key t ≡ false) × (result ≡ some (0, m)))
        ⊎ ((holds m key t ≡ true)
            × ((m1 : Heap) × (t1 : Tree) × (result ≡ some (lookup m key t, m1))
                × IsValid m1 node_r node_s t1
                × ((k : ℕ) → lookup m1 k t1 ≡ (if k == key then 0 else lookup m k t)))))
bst_remove-unbinds m key node_r node_s t fuel tries v below lt = elim (Bool-cases (holds m key t)) [
  | inr absent ↦ inl (absent, bst_remove-absent m key node_r node_s t fuel tries v below lt absent)
  | inl found ↦
      let (starts, c) = cut-root m key node_r node_s t v below found in
      let r = arrive m key (start node_r node_s t) t in
      let hit = arrive-holds m key t node_r node_s node_s ∙ found in
      let value : lookup m key t ≡ (m r.leaf).value =
        sym (arrive-lookup m key (start node_r node_s t) t refl) ∙ rw hit refl in
      inr (
        found,
        (
          cut m key r,
          prune m key t,
          rw value (bst_remove-cut m key node_r node_s t fuel tries v below lt found starts),
          cut-IsValid m key node_r node_s t v below c,
          c.reads,
        ),
      )
]
