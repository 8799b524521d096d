-- ===== src/Bst/Qsbr.antt =====
-- src/bst-aravind-qsbr: the external tree over the quiescent states of src/qsbr.c. The seek and the search are
-- those of the plain tree.
pub mod Removal
use qsense.Prelude.{
  ℕ, Bool, true, false, not, Option, none, some, List, [], ◌∷◌, ◌==◌, if◌then◌else◌,
}
use qsense.DoubleLlist.{Ptr}
use qsense.Qsbr.{Qsbr, Others, free_node_later}
use qsense.Harris.Qsbr.{Supply, allocate_node}
use qsense.Bst
use qsense.Bst.{
  Heap, address, flag, create_node, side, cas_child, SeekRecord, is_blocked, max, join, bst_seek,
}

abbrev pub World : Type 0
World = Heap × Qsbr

-- A round of an update: the quiescent states behind each failed allocation of its two nodes, the blocks that
-- it gets in the end, what the others do before the CAS, and in the tagging loop.
pub record Try : Type 0 where
  pub failed_internal : List (List Others)
  pub internal : Ptr
  pub failed_leaf : List (List Others)
  pub leaf : Ptr
  pub before_cas : World → World
  pub tagging : List Bst.Others

-- Thread `me`, with the allocations of wrappers as in Harris.Qsbr. No result is a fuel that is too small, or a
-- quiescent state that does not end.
module _ (supply : Supply) (me : ℕ) where
  abbrev pub retire : Ptr → Qsbr → Option Qsbr
  retire q s = free_node_later s me q (supply.failures q) (supply.wrapper q)

  unfoldable pub bst_cleanup :
      List Bst.Others → World → SeekRecord → (key : ℕ) → Option (Bool × World)
  bst_cleanup others (m, s) r key = elim (Bst.bst_cleanup others m r key) [
    | none ↦ none
    | some c ↦
        let freed : Option (Bool × World) = elim (retire c.removed s) [
          | none ↦ none
          | some s1 ↦ elim (retire (address r.successor) s1) [
            | none ↦ none
            | some s2 ↦ some (true, (c.heap, s2))
          ]
        ] in
        if c.done then freed else some (false, (c.heap, s))
  ]

  -- The two new nodes of `bst_insert`, made in the first round that needs them.
  abbrev pub make_nodes :
      Try
      → (created : Option (Ptr × Ptr)) → (key val leaf_key : ℕ) → World
      → Option ((Ptr × Ptr) × World)
  make_nodes t (some blocks) key val leaf_key w = some (blocks, w)
  make_nodes t none key val leaf_key (m, s) = elim (allocate_node supply me t.failed_internal s) [
    | none ↦ none
    | some s1 ↦ elim (allocate_node supply me t.failed_leaf s1) [
      | none ↦ none
      | some s2 ↦
          let m1 = create_node m t.internal (max key leaf_key) 0 in
          some ((t.internal, t.leaf), (create_node m1 t.leaf key val, s2))
    ]
  ]

  unfoldable pub bst_insert :
      ℕ
      → List Try
      → (created : Option (Ptr × Ptr)) → (key val : ℕ) → (node_r : Ptr) → World
      → Option (Bool × World)
  bst_insert fuel [] created key val node_r w = none
  bst_insert fuel (t ∷ tries) created key val node_r w = elim (bst_seek fuel w.0 key node_r) [
    | none ↦ none
    | some r ↦
        let at = side key (w.0 r.parent).key in
        let adding : Option (Bool × World) =
          elim (make_nodes t created key val (w.0 r.leaf).key w) [
            | none ↦ none
            | some (blocks, w2) ↦
                let w3 = t.before_cas (join w2.0 blocks.0 blocks.1 r.leaf key, w2.1) in
                let (res, m4) = cas_child w3.0 r.parent at (address r.leaf) (address blocks.0) in
                let again = λ (w5 : World). bst_insert fuel tries (some blocks) key val node_r w5 in
                let helped : Option (Bool × World) = elim (bst_cleanup t.tagging (m4, w3.1) r key) [
                  | none ↦ none
                  | some (done, w5) ↦ again w5
                ] in
                if res == address r.leaf
                then some (true, (m4, w3.1))
                else if is_blocked m4 r.parent at r.leaf
                then helped
                else again (m4, w3.1)
          ] in
        if (w.0 r.leaf).key == key then some (false, w) else adding
  ]

  -- `injected` is the leaf that has been flagged, once `injecting` is false.
  unfoldable pub bst_remove :
      ℕ
      → List Try
      → (injected : Option Ptr) → (key : ℕ) → (node_r : Ptr) → World
      → Option (ℕ × World)
  bst_remove fuel [] injected key node_r w = none
  bst_remove fuel (t ∷ tries) injected key node_r w = elim (bst_seek fuel w.0 key node_r) [
    | none ↦ none
    | some r ↦
        let val = (w.0 r.leaf).value in
        let at = side key (w.0 r.parent).key in
        let again = λ (i : Option Ptr) (w5 : World). bst_remove fuel tries i key node_r w5 in
        let finish = λ (leaf : Ptr) (w4 : World).
          let cleaned : Option (ℕ × World) = elim (bst_cleanup t.tagging w4 r key) [
            | none ↦ none
            | some (done, w5) ↦ if done then some (val, w5) else again (some leaf) w5
          ] in
          cleaned in
        let lf = address r.leaf in
        let w2 = t.before_cas w in
        let (result, m3) = cas_child w2.0 r.parent at lf (flag lf) in
        let helped : Option (ℕ × World) = elim (bst_cleanup t.tagging (m3, w2.1) r key) [
          | none ↦ none
          | some (done, w5) ↦ again none w5
        ] in
        elim injected [
          | none ↦
              if not ((w.0 r.leaf).key == key)
              then some (0, w)
              else if result == lf
              then finish r.leaf (m3, w2.1)
              else if is_blocked m3 r.parent at r.leaf
              then helped
              else again none (m3, w2.1)
          | some leaf ↦ if r.leaf == leaf then finish leaf w else some (val, w)
        ]
  ]
