-- ===== src/Bst/Order.antt =====
-- src/bst-aravind: the order of the keys in a tree, and the invariant of the whole structure.
use qsense.Prelude.{
  ℕ, ◌<◌, ◌≤◌, ◌≡◌, ◌≢◌, ◌∙◌, sym, subst, Bool, true, false, ◌==◌, ltb, if◌then◌else◌, arith,
  Bool-cases, inl, inr,
}
use qsense.DoubleLlist.{Ptr}
use qsense.Bst.{Heap, inf0, inf1, max, child, side}
use qsense.Bst.Tree.{Tree, leaf, node, root, IsTree, IsRooted, lookup, Avoids, IsProper}
use qsense.Bst.Grow.{grow}
use qsense.Bst.Seek.{arrive, root-IsAddress}
use qsense.Bst.Change.{Every}

-- The keys of all leaves satisfy a predicate.
abbrev pub Leaves : Heap → (ℕ → Type 0) → Tree → Type 0
Leaves m P (leaf a) = P (m a).key
Leaves m P (node a t u) = Leaves m P t × Leaves m P u

-- The keys on the left are below the key of the node, those on the right are not.
abbrev pub IsOrdered : Heap → Tree → Type 0
IsOrdered m (leaf a) = Unit
IsOrdered m (node a t u) =
    Leaves m (λ k. k < (m a).key) t
    × Leaves m (λ k. (m a).key ≤ k) u
    × IsOrdered m t
    × IsOrdered m u

-- The sentinel is the leaf at the right of the root, or the only one.
abbrev pub IsCrowned : Heap → Tree → Type 0
IsCrowned m (leaf a) = (m a).key ≡ inf0
IsCrowned m (node a t (leaf b)) = ((m a).key ≡ inf0) × ((m b).key ≡ inf0)
IsCrowned m (node a t (node b u v)) = ⊥

pub record IsValid (m : Heap) (node_r node_s : Ptr) (t : Tree) : Type 0 where
  pub rooted : IsRooted m node_r node_s t
  pub s_key : (m node_s).key ≡ inf1
  pub crowned : IsCrowned m t
  pub proper : IsProper t
  pub ordered : IsOrdered m t
  pub apart : node_r ≢ node_s
  pub r_out : Avoids node_r t
  pub s_out : Avoids node_s t

pub IsCrowned-root : (m : Heap) (t : Tree) → IsCrowned m t → (m (root t)).key ≡ inf0
IsCrowned-root m (leaf a) c = c
IsCrowned-root m (node a t (leaf b)) (c, d) = c
IsCrowned-root m (node a t (node b u v)) c = elim c [ ]

-- A key that no leaf has is mapped to 0.
pub Leaves-lookup : (m : Heap) (key : ℕ) (t : Tree) → Leaves m (λ k. k ≢ key) t → lookup m key t ≡ 0
Leaves-lookup m key (leaf a) h = ground (arith, h)
Leaves-lookup m key (node a t u) (ht, hu) = elim (Bool-cases (ltb key (m a).key)) [
  | inl less ↦ rw less (Leaves-lookup m key t ht)
  | inr more ↦ rw more (Leaves-lookup m key u hu)
]

pub Leaves-imply :
    (m : Heap) (P Q : ℕ → Type 0) → ((k : ℕ) → P k → Q k) → (t : Tree) → Leaves m P t → Leaves m Q t
Leaves-imply m P Q h (leaf a) p = h (m a).key p
Leaves-imply m P Q h (node a t u) (pt, pu) = (Leaves-imply m P Q h t pt, Leaves-imply m P Q h u pu)

-- The same keys, under another heap.
pub Leaves-same :
    (m m1 : Heap) (Old : Ptr → Type 0) (P : ℕ → Type 0)
    → ((x : Ptr) → Old x → (m1 x).key ≡ (m x).key)
    → (t : Tree) → Every Old t
    → Leaves m P t
    → Leaves m1 P t
Leaves-same m m1 Old P h (leaf a) o p = subst P (sym (h a o)) p
Leaves-same m m1 Old P h (node a t u) (o, ot, ou) (pt, pu) =
    (Leaves-same m m1 Old P h t ot pt, Leaves-same m m1 Old P h u ou pu)

pub IsOrdered-same :
    (m m1 : Heap) (Old : Ptr → Type 0)
    → ((x : Ptr) → Old x → (m1 x).key ≡ (m x).key)
    → (t : Tree) → Every Old t
    → IsOrdered m t
    → IsOrdered m1 t
IsOrdered-same m m1 Old h (leaf a) o p = tt
IsOrdered-same m m1 Old h (node a t u) (o, ot, ou) (lt, ge, pt, pu) = (
  Leaves-same m m1 Old (λ k. k < (m1 a).key) h t ot (rw (h a o) lt),
  Leaves-same m m1 Old (λ k. (m1 a).key ≤ k) h u ou (rw (h a o) ge),
  IsOrdered-same m m1 Old h t ot pt,
  IsOrdered-same m m1 Old h u ou pu,
)

module _ (m m1 : Heap) (Old : Ptr → Type 0) (key : ℕ) (bi bn : Ptr)
    (same : (x : Ptr) → Old x → (m1 x).key ≡ (m x).key) (new : (m1 bn).key ≡ key) where
  pub Leaves-grow :
      (P : ℕ → Type 0) (t : Tree)
      → P key
      → Every Old t
      → Leaves m P t
      → Leaves m1 P (grow m key bi bn t)
  Leaves-grow P (leaf a) pk o p = elim (Bool-cases (ltb key (m a).key)) [
    | inl less ↦ rw less (subst P (sym new) pk, subst P (sym (same a o)) p)
    | inr more ↦ rw more (subst P (sym (same a o)) p, subst P (sym new) pk)
  ]
  Leaves-grow P (node a t u) pk (o, ot, ou) (pt, pu) = elim (Bool-cases (ltb key (m a).key)) [
    | inl less ↦ rw less (Leaves-grow P t pk ot pt, Leaves-same m m1 Old P same u ou pu)
    | inr more ↦ rw more (Leaves-same m m1 Old P same t ot pt, Leaves-grow P u pk ou pu)
  ]

  -- An insertion keeps the order.
  pub grow-IsOrdered :
      (t : Tree) (anc above q : Ptr)
      → (let r =
            arrive m key
              (record { ancestor = anc; successor = above; parent = q; leaf = root t })
              t in
          (m1 bi).key ≡ max key (m r.leaf).key
          → ((m r.leaf).key == key) ≡ false
          → Every Old t
          → IsOrdered m t
          → IsOrdered m1 (grow m key bi bn t))
  grow-IsOrdered (leaf a) anc above q top fresh o p =
      let here = same a o in
      elim (Bool-cases (ltb key (m a).key)) [
        | inl less ↦
            rw less (ground (arith, less, new, top), ground (arith, less, here, top), tt, tt)
        | inr more ↦
            rw more (ground (arith, more, here, top, fresh), ground (arith, more, new, top), tt, tt)
      ]
  grow-IsOrdered (node a t u) anc above q top fresh (o, ot, ou) (lt, ge, pt, pu) =
      let rt = arrive m key (record { ancestor = q; successor = a; parent = a; leaf = root t }) t in
      let ru = arrive m key (record { ancestor = q; successor = a; parent = a; leaf = root u }) u in
      let top_at = λ (b : Bool). (m1 bi).key ≡ max key (m (if b then rt else ru).leaf).key in
      let fresh_at = λ (b : Bool). ((m (if b then rt else ru).leaf).key == key) ≡ false in
      elim (Bool-cases (ltb key (m a).key)) [
        | inl less ↦ rw less (
          Leaves-grow (λ k. k < (m1 a).key) t (rw (same a o) (ground (arith, less))) ot
              (rw (same a o) lt),
          Leaves-same m m1 Old (λ k. (m1 a).key ≤ k) same u ou (rw (same a o) ge),
          grow-IsOrdered t q a a (subst top_at less top) (subst fresh_at less fresh) ot pt,
          IsOrdered-same m m1 Old same u ou pu,
        )
        | inr more ↦ rw more (
          Leaves-same m m1 Old (λ k. k < (m1 a).key) same t ot (rw (same a o) lt),
          Leaves-grow (λ k. (m1 a).key ≤ k) u (rw (same a o) (ground (arith, more))) ou
              (rw (same a o) ge),
          IsOrdered-same m m1 Old same t ot pt,
          grow-IsOrdered u q a a (subst top_at more top) (subst fresh_at more fresh) ou pu,
        )
      ]

-- The sentinel stays where it is.
pub grow-IsCrowned :
    (m m1 : Heap) (Old : Ptr → Type 0) (key : ℕ) (bi bn : Ptr)
    → ((x : Ptr) → Old x → (m1 x).key ≡ (m x).key)
    → key < inf0
    → (t : Tree) (anc above q : Ptr)
    → (let r =
          arrive m key
            (record { ancestor = anc; successor = above; parent = q; leaf = root t })
            t in
        (m1 bi).key ≡ max key (m r.leaf).key
        → Every Old t
        → IsCrowned m t
        → IsCrowned m1 (grow m key bi bn t))
grow-IsCrowned m m1 Old key bi bn same below (leaf a) anc above q top o c =
    let less : ltb key (m a).key ≡ true = rw c (ground (arith, below)) in
    rw less ((rw top (rw c (ground (arith, below)))), same a o ∙ c)
grow-IsCrowned m m1 Old key bi bn same below (node a t (leaf b)) anc above q top (o, ot, ob)
      (c, d) =
    let less : ltb key (m a).key ≡ true = rw c (ground (arith, below)) in
    rw less (same a o ∙ c, same b ob ∙ d)
grow-IsCrowned m m1 Old key bi bn same below (node a t (node b u v)) anc above q top o c =
    elim c [ ]

-- The edge over the tree, and the tree.
pub root_edge :
    (m : Heap) (key : ℕ) (node_r node_s : Ptr) (t : Tree)
    → IsValid m node_r node_s t
    → key < inf0
    → (child m node_s (side key (m node_s).key) ≡ root t) × IsTree m (root t) t
root_edge m key node_r node_s t v below =
    let (to_s, ok, h, low) = v.rooted in
    let (e, good) = root-IsAddress m (m node_s).left t h in
    let less : ltb key (m node_s).key ≡ true = rw v.s_key (ground (arith, below)) in
    (rw less e, subst (λ p. IsTree m p t) e h)
