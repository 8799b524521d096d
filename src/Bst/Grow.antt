-- ===== src/Bst/Grow.antt =====
-- src/bst-aravind: the tree after an insertion, and what it keeps.
use qsense.Prelude.{ℕ, ◌≢◌, sym, ltb, if◌then◌else◌, Bool-cases, inl, inr}
use qsense.DoubleLlist.{Ptr}
use qsense.Bst.{Heap}
use qsense.Bst.Tree.{Tree, leaf, node, Avoids, Disjoint, IsProper}

-- The tree with a new leaf, under a new internal node over the leaf that the search for `key` finds.
abbrev pub grow : Heap → (key : ℕ) → (new_internal new_node : Ptr) → Tree → Tree
grow m key bi bn (leaf a) =
    if ltb key (m a).key then node bi (leaf bn) (leaf a) else node bi (leaf a) (leaf bn)
grow m key bi bn (node a t u) =
    if ltb key (m a).key then node a (grow m key bi bn t) u else node a t (grow m key bi bn u)

pub Avoids-grow :
    (m : Heap) (key : ℕ) (bi bn x : Ptr) (t : Tree)
    → Avoids x t
    → x ≢ bi
    → x ≢ bn
    → Avoids x (grow m key bi bn t)
Avoids-grow m key bi bn x (leaf a) p i n = elim (Bool-cases (ltb key (m a).key)) [
  | inl less ↦ rw less (i, n, p)
  | inr more ↦ rw more (i, p, n)
]
Avoids-grow m key bi bn x (node a t u) (p, pt, pu) i n = elim (Bool-cases (ltb key (m a).key)) [
  | inl less ↦ rw less (p, Avoids-grow m key bi bn x t pt i n, pu)
  | inr more ↦ rw more (p, pt, Avoids-grow m key bi bn x u pu i n)
]

pub Disjoint-grow :
    (m : Heap) (key : ℕ) (bi bn : Ptr) (t u : Tree)
    → Disjoint u t
    → Avoids bi u
    → Avoids bn u
    → Disjoint u (grow m key bi bn t)
Disjoint-grow m key bi bn t (leaf a) d i n =
    Avoids-grow m key bi bn a t d (λ e. i (sym e)) (λ e. n (sym e))
Disjoint-grow m key bi bn t (node a u v) (d, du, dv) (i, iu, iv) (n, nu, nv) = (
  Avoids-grow m key bi bn a t d (λ e. i (sym e)) (λ e. n (sym e)),
  Disjoint-grow m key bi bn t u du iu nu,
  Disjoint-grow m key bi bn t v dv iv nv,
)

pub grow-Disjoint :
    (m : Heap) (key : ℕ) (bi bn : Ptr) (t u : Tree)
    → Disjoint t u
    → Avoids bi u
    → Avoids bn u
    → Disjoint (grow m key bi bn t) u
grow-Disjoint m key bi bn (leaf a) u d i n = elim (Bool-cases (ltb key (m a).key)) [
  | inl less ↦ rw less (i, n, d)
  | inr more ↦ rw more (i, d, n)
]
grow-Disjoint m key bi bn (node a t v) u (d, dt, dv) i n = elim (Bool-cases (ltb key (m a).key)) [
  | inl less ↦ rw less (d, grow-Disjoint m key bi bn t u dt i n, dv)
  | inr more ↦ rw more (d, dt, grow-Disjoint m key bi bn v u dv i n)
]

-- No node is in the grown tree twice, if the two new ones are not in the old.
pub grow-IsProper :
    (m : Heap) (key : ℕ) (bi bn : Ptr) (t : Tree)
    → IsProper t
    → Avoids bi t
    → Avoids bn t
    → bi ≢ bn
    → IsProper (grow m key bi bn t)
grow-IsProper m key bi bn (leaf a) p i n ne = elim (Bool-cases (ltb key (m a).key)) [
  | inl less ↦ rw less (ne, i, n, (λ e. n (sym e)), tt, tt)
  | inr more ↦ rw more (i, ne, (λ e. n (sym e)), n, tt, tt)
]
grow-IsProper m key bi bn (node a t u) (at, au, tu, ut, pt, pu) (i, it, iu) (n, nt, nu) ne =
    elim (Bool-cases (ltb key (m a).key)) [
      | inl less ↦ rw less (
        Avoids-grow m key bi bn a t at (λ e. i (sym e)) (λ e. n (sym e)),
        au,
        grow-Disjoint m key bi bn t u tu iu nu,
        Disjoint-grow m key bi bn t u ut iu nu,
        grow-IsProper m key bi bn t pt it nt ne,
        pu,
      )
      | inr more ↦ rw more (
        at,
        Avoids-grow m key bi bn a u au (λ e. i (sym e)) (λ e. n (sym e)),
        Disjoint-grow m key bi bn u t tu it nt,
        grow-Disjoint m key bi bn u t ut it nt,
        pt,
        grow-IsProper m key bi bn u pu iu nu ne,
      )
    ]
