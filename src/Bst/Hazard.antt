-- ===== src/Bst/Hazard.antt =====
-- src/bst-aravind-hp and src/bst-aravind-qsense: the external tree with hazard pointers, over any scheme
-- that has them. A stage of a seek takes what the other threads do between the store of its hazard
-- pointers and the check of the edge.
pub mod Held
pub mod Protect
pub mod Quiet
pub mod Retire
use qsense.Prelude.{
  ℕ, zero, suc, ◌+◌, ◌-◌, ◌*◌, Bool, true, false, not, ◌&&◌, ◌||◌, Option, none, some, List, [],
  ◌∷◌, ◌==◌, ltb, if◌then◌else◌, put,
}
use qsense.DoubleLlist.{Ptr, null}
use qsense.Bst.{
  Node, Heap, is_flagged, is_tagged, flag, tag, untag, address, create_node, Side, opposite, side,
  child, cas_child, SeekRecord, advance, is_blocked, max, join,
}

-- The tree's heap and the state of the scheme.
abbrev pub World : Type 0 → Type 0
World S = Heap × S

-- What the other threads do.
abbrev pub Others : Type 0 → Type 0
Others S = World S → World S

-- Where `bst_seek` stands: at `retry_seek`, with the first leaf read and checked, or in the loop.
pub data Stage : Type 0 where
  starting : Stage
  leafed : (leaf : Ptr) → Stage
  going : SeekRecord → (parent_field current_field : ℕ) → Stage

-- `set_hp i p` is `HP[i].p = p`, and `retire q` is `free_node_later(q)`; the thread's pointers begin at
-- `base`, which is `hp_index_base`.
module _ {S : Type 0} (set_hp : ℕ → Ptr → S → S) (retire : Ptr → S → S) (base : ℕ) where
  abbrev pub assign_hp : (target : Ptr) → (hp_index : ℕ) → S → S
  assign_hp target hp_index s = set_hp (base + hp_index) target s

  -- The hazard pointers that the body of the loop stores for the record that it has moved to.
  abbrev pub assign_record : SeekRecord → (parent_field : ℕ) → (current : Ptr) → S → S
  assign_record r parent_field current s =
      let s1 =
        if is_tagged parent_field
        then s
        else assign_hp (address r.leaf) 1 (assign_hp (address r.parent) 0 s) in
      assign_hp current 3 (assign_hp (address r.leaf) 2 s1)

  -- The stages of `bst_seek` from one on.
  unfoldable pub seek_stages :
      List (Others S)
      → (key : ℕ) → (node_r node_s : Ptr) → Stage
      → World S
      → Option (SeekRecord × World S)
  seek_stages [] key node_r node_s stage w = none
  seek_stages (other ∷ others) key node_r node_s starting (m, s) =
      let s1 =
        assign_hp (address node_s) 2
          (assign_hp (address node_s) 1 (assign_hp (address node_r) 0 s)) in
      let leaf = address (m node_s).left in
      let w1 = other (m, assign_hp leaf 3 s1) in
      let next = if leaf == address (w1.0 node_s).left then leafed leaf else starting in
      seek_stages others key node_r node_s next w1
  seek_stages (other ∷ others) key node_r node_s (leafed leaf) (m, s) =
      let parent_field = (m node_s).left in
      let current_field = (m leaf).left in
      let current = address current_field in
      let w1 = other (m, assign_hp current 4 s) in
      let r : SeekRecord = record {
        ancestor = node_r;
        successor = node_s;
        parent = node_s;
        leaf = leaf;
      } in
      let next =
        if current == address (w1.0 leaf).left
        then going r parent_field current_field
        else starting in
      seek_stages others key node_r node_s next w1
  seek_stages (other ∷ others) key node_r node_s (going r parent_field current_field) (m, s) =
      let current = address current_field in
      let s1 = assign_record r parent_field current s in
      let at = side key (m current).key in
      let field = child m current at in
      let w1 = other (m, assign_hp (address field) 5 s1) in
      let r1 = advance r parent_field current in
      let onward =
        seek_stages others key node_r node_s (going r1 current_field field)
          (w1.0, assign_hp (address field) 4 w1.1) in
      let retry_seek = seek_stages others key node_r node_s starting w1 in
      if current == null
      then some (r, (m, s))
      else if field == child w1.0 current at
      then onward
      else retry_seek

  unfoldable pub bst_seek :
      List (Others S) → (key : ℕ) → (node_r : Ptr) → World S → Option (SeekRecord × World S)
  bst_seek others key node_r w =
      seek_stages others key node_r (address (w.0 node_r).left) starting w

  unfoldable pub bst_search :
      List (Others S) → (key : ℕ) → (node_r : Ptr) → World S → Option (ℕ × World S)
  bst_search others key node_r w = elim (bst_seek others key node_r w) [
    | none ↦ none
    | some (r, w1) ↦ some (if (w1.0 r.leaf).key == key then (w1.0 r.leaf).value else 0, w1)
  ]

  -- The loop of `bst_cleanup` that tags an edge, with what the others do before the CAS of each round.
  unfoldable pub tag_loop : List (Others S) → World S → Ptr → Side → Option (World S)
  tag_loop [] w a s = none
  tag_loop (other ∷ others) w a s =
      let untagged = child w.0 a s in
      let w1 = other w in
      let (res, m2) = cas_child w1.0 a s untagged (tag untagged) in
      let again = tag_loop others (m2, w1.1) a s in
      if res == untagged then some (m2, w1.1) else again

  unfoldable pub bst_cleanup :
      List (Others S) → World S → SeekRecord → (key : ℕ) → Option (Bool × World S)
  bst_cleanup others w r key =
      let m = w.0 in
      let succ_side = side key (m r.ancestor).key in
      let child_side = side key (m r.parent).key in
      let flagged = is_flagged (child m r.parent child_side) in
      let chld =
        if flagged then child m r.parent child_side else child m r.parent (opposite child_side) in
      let sibling_side = if flagged then opposite child_side else child_side in
      elim (tag_loop others w r.parent sibling_side) [
        | none ↦ none
        | some w1 ↦
            let sibl = child w1.0 r.parent sibling_side in
            let (res, m2) =
              cas_child w1.0 r.ancestor succ_side (address r.successor) (untag sibl) in
            let freed = retire (address r.successor) (retire (address chld) w1.1) in
            some (if res == address r.successor then (true, (m2, freed)) else (false, (m2, w1.1)))
      ]

  -- A round of an update: the stages of its seek, how it comes to its two blocks, and what the others do
  -- before the CAS and in the tagging loop.
  pub record Try : Type 0 where
    pub seeking : List (Others S)
    pub allocate_internal : S → Ptr × S
    pub allocate_leaf : S → Ptr × S
    pub before_cas : Others S
    pub tagging : List (Others S)

  -- The two new nodes of `bst_insert`, made in the first round that needs them.
  abbrev pub make_nodes :
      Try
      → (created : Option (Ptr × Ptr)) → (key val leaf_key : ℕ) → World S
      → (Ptr × Ptr) × World S
  make_nodes t (some blocks) key val leaf_key w = (blocks, w)
  make_nodes t none key val leaf_key (m, s) =
      let (new_internal, s1) = t.allocate_internal s in
      let (new_node, s2) = t.allocate_leaf s1 in
      (
        (new_internal, new_node),
        (create_node (create_node m new_internal (max key leaf_key) 0) new_node key val, s2),
      )

  -- What `bst_insert` does with the nodes that it has made when it finds the key after all.
  abbrev pub drop_nodes : (created : Option (Ptr × Ptr)) → S → S
  drop_nodes none s = s
  drop_nodes (some (new_internal, new_node)) s = retire new_node (retire new_internal s)

  unfoldable pub bst_insert :
      List Try
      → (created : Option (Ptr × Ptr)) → (key val : ℕ) → (node_r : Ptr) → World S
      → Option (Bool × World S)
  bst_insert [] created key val node_r w = none
  bst_insert (t ∷ tries) created key val node_r w = elim (bst_seek t.seeking key node_r w) [
    | none ↦ none
    | some (r, w1) ↦
        let (blocks, w2) = make_nodes t created key val (w1.0 r.leaf).key w1 in
        let at = side key (w1.0 r.parent).key in
        let w3 = t.before_cas (join w2.0 blocks.0 blocks.1 r.leaf key, w2.1) in
        let (res, m4) = cas_child w3.0 r.parent at (address r.leaf) (address blocks.0) in
        let again = λ (w5 : World S). bst_insert tries (some blocks) key val node_r w5 in
        let helped : Option (Bool × World S) = elim (bst_cleanup t.tagging (m4, w3.1) r key) [
          | none ↦ none
          | some (done, w5) ↦ again w5
        ] in
        if (w1.0 r.leaf).key == key
        then some (false, (w1.0, drop_nodes created w1.1))
        else if res == address r.leaf
        then some (true, (m4, w3.1))
        else if is_blocked m4 r.parent at r.leaf
        then helped
        else again (m4, w3.1)
  ]

  -- `injected` is the leaf that has been flagged, once `injecting` is false.
  unfoldable pub bst_remove :
      List Try
      → (injected : Option Ptr) → (key : ℕ) → (node_r : Ptr) → World S
      → Option (ℕ × World S)
  bst_remove [] injected key node_r w = none
  bst_remove (t ∷ tries) injected key node_r w = elim (bst_seek t.seeking key node_r w) [
    | none ↦ none
    | some (r, w1) ↦
        let val = (w1.0 r.leaf).value in
        let at = side key (w1.0 r.parent).key in
        let again = λ (i : Option Ptr) (w5 : World S). bst_remove tries i key node_r w5 in
        let finish = λ (leaf : Ptr) (w4 : World S).
          let cleaned : Option (ℕ × World S) = elim (bst_cleanup t.tagging w4 r key) [
            | none ↦ none
            | some (done, w5) ↦ if done then some (val, w5) else again (some leaf) w5
          ] in
          cleaned in
        let lf = address r.leaf in
        let w2 = t.before_cas w1 in
        let (result, m3) = cas_child w2.0 r.parent at lf (flag lf) in
        let helped : Option (ℕ × World S) = elim (bst_cleanup t.tagging (m3, w2.1) r key) [
          | none ↦ none
          | some (done, w5) ↦ again none w5
        ] in
        elim injected [
          | none ↦
              if not ((w1.0 r.leaf).key == key)
              then some (0, w1)
              else if result == lf
              then finish r.leaf (m3, w2.1)
              else if is_blocked m3 r.parent at r.leaf
              then helped
              else again none (m3, w2.1)
          | some leaf ↦ if r.leaf == leaf then finish leaf w1 else some (val, w1)
        ]
  ]
