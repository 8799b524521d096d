-- ===== src/Bst.antt =====
-- src/bst-aravind: the external search tree without reclamation. A child field is an address with two
-- bits below it, the flag of a leaf that is deleted and the tag of an edge that is to stay.
pub mod Tree
pub mod Seek
pub mod Grow
pub mod Order
pub mod Change
pub mod Insert
pub mod Bind
pub mod Prune
pub mod Cut
pub mod Remove
pub mod Unbind
pub mod Loss
pub mod Build
pub mod Hazard
pub mod Hp
pub mod Qsense
pub mod Qsbr
use qsense.Prelude.{
  ℕ, zero, suc, ◌+◌, ◌-◌, ◌*◌, ◌/◌, ◌%◌, Bool, true, false, not, ◌&&◌, ◌||◌, Option, none, some,
  List, [], ◌∷◌, ◌==◌, ltb, if◌then◌else◌, put,
}
use qsense.DoubleLlist.{Ptr, null}
use qsense.Keys.{key_max}

pub record Node : Type 0 where
  pub key : ℕ
  pub value : ℕ
  pub right : ℕ
  pub left : ℕ

abbrev pub Heap : Type 0
Heap = Ptr → Node

abbrev pub inf0 : ℕ
inf0 = key_max

abbrev pub inf1 : ℕ
inf1 = key_max + 1

abbrev pub inf2 : ℕ
inf2 = key_max + 2

abbrev pub is_flagged : ℕ → Bool
is_flagged p = p % 2 == 1

abbrev pub is_tagged : ℕ → Bool
is_tagged p = p / 2 % 2 == 1

abbrev pub flag : ℕ → ℕ
flag p = if p % 2 == 1 then p else p + 1

abbrev pub tag : ℕ → ℕ
tag p = if p / 2 % 2 == 1 then p else p + 2

abbrev pub untag : ℕ → ℕ
untag p = p - 2 * (p / 2 % 2)

abbrev pub address : ℕ → Ptr
address p = p - p % 4

-- `create_node` with the block that it gets.
abbrev pub create_node : Heap → (block : Ptr) → (key value : ℕ) → Heap
create_node m block key value =
    put m block (record { key = key; value = value; right = null; left = null })

-- A field of a node: the left or the right child.
pub data Side : Type 0 where
  left_side : Side
  right_side : Side

abbrev pub opposite : Side → Side
opposite left_side = right_side
opposite right_side = left_side

-- The field that a search for `key` takes at a node with key `at`.
abbrev pub side : (key at : ℕ) → Side
side key at = if ltb key at then left_side else right_side

abbrev pub child : Heap → Ptr → Side → ℕ
child m a left_side = (m a).left
child m a right_side = (m a).right

abbrev pub set_child : Heap → Ptr → Side → ℕ → Heap
set_child m a left_side p = put m a (record (m a) { left = p })
set_child m a right_side p = put m a (record (m a) { right = p })

-- `CAS_PTR` on a field: what it has read, and the heap.
abbrev pub cas_child : Heap → Ptr → Side → (old new : ℕ) → ℕ × Heap
cas_child m a s old new = (child m a s, if child m a s == old then set_child m a s new else m)

-- `initialize_tree` with the blocks of its five nodes: the heap and the root.
unfoldable pub initialize_tree : Heap → (r s l0 l1 l2 : Ptr) → Heap × Ptr
initialize_tree m r s l0 l1 l2 =
    let m1 = create_node (create_node m r inf2 0) s inf1 0 in
    let m2 = create_node (create_node (create_node m1 l0 inf0 0) l1 inf1 0) l2 inf2 0 in
    let m3 = set_child (set_child m2 r left_side s) r right_side l2 in
    (set_child (set_child m3 s right_side l1) s left_side l0, r)

-- `struct seek_record_t`.
pub record SeekRecord : Type 0 where
  pub ancestor : Ptr
  pub successor : Ptr
  pub parent : Ptr
  pub leaf : Ptr

-- The body of the loop of `bst_seek`, for the next node `current`.
abbrev pub advance : SeekRecord → (parent_field : ℕ) → (current : Ptr) → SeekRecord
advance r parent_field current =
    if is_tagged parent_field
    then record r { parent = r.leaf; leaf = current }
    else record { ancestor = r.parent; successor = r.leaf; parent = r.leaf; leaf = current }

-- That loop, on fuel.
unfoldable pub seek_loop :
    ℕ → Heap → (key : ℕ) → SeekRecord → (parent_field current_field : ℕ) → Option SeekRecord
seek_loop zero m key r parent_field current_field = none
seek_loop (suc fuel) m key r parent_field current_field =
    let current = address current_field in
    let rest =
      seek_loop fuel m key (advance r parent_field current) current_field
        (child m current (side key (m current).key)) in
    if current == null then some r else rest

unfoldable pub bst_seek : ℕ → Heap → (key : ℕ) → (node_r : Ptr) → Option SeekRecord
bst_seek fuel m key node_r =
    let node_s = address (m node_r).left in
    let leaf = address (m node_s).left in
    seek_loop fuel m key
      (record { ancestor = node_r; successor = node_s; parent = node_s; leaf = leaf })
      (m node_s).left (m leaf).left

unfoldable pub bst_search : ℕ → Heap → (key : ℕ) → (node_r : Ptr) → Option ℕ
bst_search fuel m key node_r = elim (bst_seek fuel m key node_r) [
  | none ↦ none
  | some r ↦ some (if (m r.leaf).key == key then (m r.leaf).value else 0)
]

-- What the other threads do.
abbrev pub Others : Type 0
Others = Heap → Heap

-- The loop of `bst_cleanup` that tags an edge, with what the others do before the CAS of each round. No
-- result if there are too few rounds.
unfoldable pub tag_loop : List Others → Heap → Ptr → Side → Option Heap
tag_loop [] m a s = none
tag_loop (other ∷ others) m a s =
    let untagged = child m a s in
    let (res, m1) = cas_child (other m) a s untagged (tag untagged) in
    let again = tag_loop others m1 a s in if res == untagged then some m1 else again

-- What `bst_cleanup` returns, the child that it takes out, and the heap.
pub record Cleanup : Type 0 where
  pub done : Bool
  pub removed : Ptr
  pub heap : Heap

unfoldable pub bst_cleanup : List Others → Heap → SeekRecord → (key : ℕ) → Option Cleanup
bst_cleanup others m r key =
    let succ_side = side key (m r.ancestor).key in
    let child_side = side key (m r.parent).key in
    let flagged = is_flagged (child m r.parent child_side) in
    let chld =
      if flagged then child m r.parent child_side else child m r.parent (opposite child_side) in
    let sibling_side = if flagged then opposite child_side else child_side in
    elim (tag_loop others m r.parent sibling_side) [
      | none ↦ none
      | some m1 ↦
          let sibl = child m1 r.parent sibling_side in
          let (res, m2) = cas_child m1 r.ancestor succ_side (address r.successor) (untag sibl) in
          some (record { done = res == address r.successor; removed = address chld; heap = m2 })
    ]

-- The test of an update whose CAS on the edge to `leaf` has failed.
abbrev pub is_blocked : Heap → Ptr → Side → (leaf : Ptr) → Bool
is_blocked m a s leaf =
    let chld = child m a s in (address chld == leaf) && (is_flagged chld || is_tagged chld)

-- A round of an update: what the others do before the CAS, and in the tagging loop.
pub record Try : Type 0 where
  pub before_cas : Others
  pub tagging : List Others

abbrev pub max : ℕ → ℕ → ℕ
max a b = if ltb b a then a else b

-- The new internal node over the new leaf and the old one.
abbrev pub join : Heap → (new_internal new_node leaf : Ptr) → (key : ℕ) → Heap
join m new_internal new_node leaf key =
    let n = record (m new_internal) { key = max key (m leaf).key } in
    put m new_internal (
      if ltb key (m leaf).key
      then record n { left = new_node; right = leaf }
      else record n { right = new_node; left = leaf })

-- `bst_insert`, with the blocks of its two nodes; `created` is whether they have been made.
unfoldable pub bst_insert :
    ℕ
    → List Try
    → Heap
    → (created : Bool) → (new_internal new_node : Ptr) → (key val : ℕ) → (node_r : Ptr)
    → Option (Bool × Heap)
bst_insert fuel [] m created new_internal new_node key val node_r = none
bst_insert fuel (t ∷ tries) m created new_internal new_node key val node_r =
    elim (bst_seek fuel m key node_r) [
      | none ↦ none
      | some r ↦
          let m1 =
            if created
            then m
            else create_node (create_node m new_internal (max key (m r.leaf).key) 0) new_node key
                val in
          let m2 = t.before_cas (join m1 new_internal new_node r.leaf key) in
          let at = side key (m r.parent).key in
          let (res, m3) = cas_child m2 r.parent at (address r.leaf) (address new_internal) in
          let again =
            λ (m4 : Heap). bst_insert fuel tries m4 true new_internal new_node key val node_r in
          let helped : Option (Bool × Heap) = elim (bst_cleanup t.tagging m3 r key) [
            | none ↦ none
            | some c ↦ again c.heap
          ] in
          if (m r.leaf).key == key
          then some (false, m)
          else if res == address r.leaf
          then some (true, m3)
          else if is_blocked m3 r.parent at r.leaf
          then helped
          else again m3
    ]

-- `bst_remove`; `injected` is the leaf that has been flagged, once `injecting` is false.
unfoldable pub bst_remove :
    ℕ → List Try → Heap → (injected : Option Ptr) → (key : ℕ) → (node_r : Ptr) → Option (ℕ × Heap)
bst_remove fuel [] m injected key node_r = none
bst_remove fuel (t ∷ tries) m injected key node_r = elim (bst_seek fuel m key node_r) [
  | none ↦ none
  | some r ↦
      let val = (m r.leaf).value in
      let at = side key (m r.parent).key in
      let again = λ (i : Option Ptr) (m1 : Heap). bst_remove fuel tries m1 i key node_r in
      let finish = λ (leaf : Ptr) (m1 : Heap).
        let cleaned : Option (ℕ × Heap) = elim (bst_cleanup t.tagging m1 r key) [
          | none ↦ none
          | some c ↦ if c.done then some (val, c.heap) else again (some leaf) c.heap
        ] in
        cleaned in
      let lf = address r.leaf in
      let (result, m2) = cas_child (t.before_cas m) r.parent at lf (flag lf) in
      let helped : Option (ℕ × Heap) = elim (bst_cleanup t.tagging m2 r key) [
        | none ↦ none
        | some c ↦ again none c.heap
      ] in
      elim injected [
        | none ↦
            if not ((m r.leaf).key == key)
            then some (0, m)
            else if result == lf
            then finish r.leaf m2
            else if is_blocked m2 r.parent at r.leaf
            then helped
            else again none m2
        | some leaf ↦ if r.leaf == leaf then finish leaf m else some (val, m)
      ]
]

-- `bst_size`, on fuel for the depth.
unfoldable pub bst_size : ℕ → Heap → (node : Ptr) → Option ℕ
bst_size zero m node = none
bst_size (suc fuel) m node =
    let n = m node in
    let below = λ (p : ℕ).
      let counted : Option ℕ = if is_flagged p || is_tagged p then some 0 else bst_size fuel m p in
      counted in
    let both : Option ℕ = elim (below n.left) [
      | none ↦ none
      | some l ↦ elim (below n.right) [ none ↦ none | some r ↦ some ((l + r) % 4294967296) ]
    ] in
    if node == null
    then some 0
    else if (n.left == null) && (n.right == null) && ltb n.key inf0
    then some 1
    else both
