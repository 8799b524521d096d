-- ===== src/Bst/Prune.antt =====
-- src/bst-aravind: the tree after a removal, and what it keeps.
use qsense.Prelude.{ℕ, ◌<◌, ◌≤◌, ◌≡◌, ◌∙◌, true, ltb, if◌then◌else◌, arith, Bool-cases, inl, inr}
use qsense.DoubleLlist.{Ptr}
use qsense.Bst.{Heap, inf0}
use qsense.Bst.Tree.{Tree, leaf, node, Avoids, Disjoint, IsProper}
use qsense.Bst.Order.{Leaves, IsOrdered, IsCrowned}

-- A node whose left subtree was `t` and has become `t1`: a leaf goes, and its parent with it.
abbrev pub over_left : Ptr → (t t1 u : Tree) → Tree
over_left a (leaf b) t1 u = u
over_left a (node b t v) t1 u = node a t1 u

-- The same at the right.
abbrev pub over_right : Ptr → (u t t1 : Tree) → Tree
over_right a u (leaf b) t1 = u
over_right a u (node b t v) t1 = node a u t1

-- The tree without the leaf that the search for `key` finds, and without its parent.
abbrev pub prune : Heap → (key : ℕ) → Tree → Tree
prune m key (leaf a) = leaf a
prune m key (node a t u) =
    if ltb key (m a).key then over_left a t (prune m key t) u else over_right a t u (prune m key u)

-- What holds of both subtrees, and of the node over a smaller one, holds of what stays.
module _ (P : Tree → Type 0) (a : Ptr) (u t1 : Tree) (whole : P u) where
  over_left_lem : (t : Tree) → P (node a t1 u) → P (over_left a t t1 u)
  over_left_lem (leaf b) h = whole
  over_left_lem (node b t v) h = h

  over_right_lem : (t : Tree) → P (node a u t1) → P (over_right a u t t1)
  over_right_lem (leaf b) h = whole
  over_right_lem (node b t v) h = h

pub Avoids-prune : (m : Heap) (key : ℕ) (x : Ptr) (t : Tree) → Avoids x t → Avoids x (prune m key t)
Avoids-prune m key x (leaf a) p = p
Avoids-prune m key x (node a t u) (p, pt, pu) = elim (Bool-cases (ltb key (m a).key)) [
  | inl less ↦
      rw less (
        over_left_lem (λ v. Avoids x v) a u (prune m key t) pu t (p, Avoids-prune m key x t pt, pu))
  | inr more ↦
      rw more (
        over_right_lem (λ v. Avoids x v) a t (prune m key u) pt u
          (p, pt, Avoids-prune m key x u pu))
]

pub Disjoint-prune : (m : Heap) (key : ℕ) (t u : Tree) → Disjoint u t → Disjoint u (prune m key t)
Disjoint-prune m key t (leaf a) d = Avoids-prune m key a t d
Disjoint-prune m key t (node a u v) (d, du, dv) =
    (Avoids-prune m key a t d, Disjoint-prune m key t u du, Disjoint-prune m key t v dv)

pub prune-Disjoint : (m : Heap) (key : ℕ) (t u : Tree) → Disjoint t u → Disjoint (prune m key t) u
prune-Disjoint m key (leaf a) u d = d
prune-Disjoint m key (node a t v) u (d, dt, dv) = elim (Bool-cases (ltb key (m a).key)) [
  | inl less ↦ rw less (
      over_left_lem (λ w. Disjoint w u) a v (prune m key t) dv t
        (d, prune-Disjoint m key t u dt, dv))
  | inr more ↦ rw more (
      over_right_lem (λ w. Disjoint w u) a t (prune m key v) dt v
        (d, dt, prune-Disjoint m key v u dv))
]

pub prune-IsProper : (m : Heap) (key : ℕ) (t : Tree) → IsProper t → IsProper (prune m key t)
prune-IsProper m key (leaf a) p = p
prune-IsProper m key (node a t u) (at, au, tu, ut, pt, pu) = elim (Bool-cases (ltb key (m a).key)) [
  | inl less ↦ rw less (
      over_left_lem IsProper a u (prune m key t) pu t (
        Avoids-prune m key a t at,
        au,
        prune-Disjoint m key t u tu,
        Disjoint-prune m key t u ut,
        prune-IsProper m key t pt,
        pu,
      ))
  | inr more ↦ rw more (
      over_right_lem IsProper a t (prune m key u) pt u (
        at,
        Avoids-prune m key a u au,
        Disjoint-prune m key u t tu,
        prune-Disjoint m key u t ut,
        pt,
        prune-IsProper m key u pu,
      ))
]

pub Leaves-prune :
    (m : Heap) (P : ℕ → Type 0) (key : ℕ) (t : Tree) → Leaves m P t → Leaves m P (prune m key t)
Leaves-prune m P key (leaf a) p = p
Leaves-prune m P key (node a t u) (pt, pu) = elim (Bool-cases (ltb key (m a).key)) [
  | inl less ↦
      rw less (over_left_lem (Leaves m P) a u (prune m key t) pu t (Leaves-prune m P key t pt, pu))
  | inr more ↦
      rw more (over_right_lem (Leaves m P) a t (prune m key u) pt u (pt, Leaves-prune m P key u pu))
]

pub prune-IsOrdered : (m : Heap) (key : ℕ) (t : Tree) → IsOrdered m t → IsOrdered m (prune m key t)
prune-IsOrdered m key (leaf a) p = p
prune-IsOrdered m key (node a t u) (lt, ge, pt, pu) = elim (Bool-cases (ltb key (m a).key)) [
  | inl less ↦ rw less (
      over_left_lem (IsOrdered m) a u (prune m key t) pu t
        (Leaves-prune m (λ k. k < (m a).key) key t lt, ge, prune-IsOrdered m key t pt, pu))
  | inr more ↦ rw more (
      over_right_lem (IsOrdered m) a t (prune m key u) pt u
        (lt, Leaves-prune m (λ k. (m a).key ≤ k) key u ge, pt, prune-IsOrdered m key u pu))
]

-- The sentinel stays where it is.
pub prune-IsCrowned :
    (m : Heap) (key : ℕ) (t : Tree) → key < inf0 → IsCrowned m t → IsCrowned m (prune m key t)
prune-IsCrowned m key (leaf a) below c = c
prune-IsCrowned m key (node a t (leaf b)) below (c, d) =
    let less : ltb key (m a).key ≡ true = rw c (ground (arith, below)) in
    rw less (over_left_lem (IsCrowned m) a (leaf b) (prune m key t) d t (c, d))
prune-IsCrowned m key (node a t (node b u v)) below c = elim c [ ]

-- The sentinel is a matter of the keys.
pub IsCrowned-same :
    (m m1 : Heap)
    → ((x : Ptr) → (m1 x).key ≡ (m x).key)
    → (t : Tree) → IsCrowned m t
    → IsCrowned m1 t
IsCrowned-same m m1 h (leaf a) c = h a ∙ c
IsCrowned-same m m1 h (node a t (leaf b)) (c, d) = (h a ∙ c, h b ∙ d)
IsCrowned-same m m1 h (node a t (node b u v)) c = elim c [ ]
