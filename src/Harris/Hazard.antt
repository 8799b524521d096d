-- ===== src/Harris/Hazard.antt =====
-- src/linkedlist-harris-hp/harris_opt.c: Harris' list with hazard pointers, over any scheme that has
-- them. A round of a search takes what the other threads do between the store of its hazard pointer
-- and the check of the link, and before the CAS on a deleted node.
pub mod Protect
pub mod Quiet
pub mod Gap
use qsense.Prelude.{
  ℕ, zero, suc, ◌+◌, ◌-◌, ◌*◌, Bool, true, false, not, ◌&&◌, Option, none, some, List, [], ◌∷◌,
  ◌==◌, ltb, leb, if◌then◌else◌, put,
}
use qsense.DoubleLlist.{Ptr, null}
use qsense.Harris.{Node, Heap, is_marked_ref, get_unmarked_ref, get_marked_ref, cas_next}

-- The list's heap and the state of the scheme.
abbrev pub World : Type 0 → Type 0
World S = Heap × S

-- What the other threads do.
abbrev pub Others : Type 0 → Type 0
Others S = World S → World S

-- What they do in a round of a search: between the store of the hazard pointer and the check of the
-- link, and then, if the node is deleted, before the CAS that takes it out.
pub record Round (S : Type 0) : Type 0 where
  pub before_check : Others S
  pub before_cas : Others S

-- What `list_search` returns, with the slot of its hazard pointers that the next round would use.
pub record Place (S : Type 0) : Type 0 where
  pub left_node : Ptr
  pub right_node : Ptr
  pub offset : ℕ
  pub world : World S

-- `new_node`, which leaves the heap alone when it gets no block.
abbrev pub new_node : Heap → (block : Ptr) → (key val next : ℕ) → Heap
new_node m block key val next =
    if block == null then m else put m block (record { key = key; val = val; next = next })

-- `set_hp i p` is `HP[i].p = p`, and `retire q` is `free_node_later(q)`.
module _ {S : Type 0} (set_hp : ℕ → Ptr → S → S) (retire : Ptr → S → S) where
  unfoldable pub physical_delete_right : World S → (left_node right_node : Ptr) → Bool × World S
  physical_delete_right (m, s) left_node right_node =
      let (res, m1) = cas_next m left_node right_node (get_unmarked_ref (m right_node).next) in
      let removed = res == right_node in (removed, (m1, if removed then retire res s else s))

  -- The loop of `list_search`, for the two hazard pointers from `base` on.
  unfoldable pub search_loop :
      List (Round S)
      → (key : ℕ) → (head : Ptr) → (base offset : ℕ) → (left_node right_node : Ptr) → World S
      → Option (Place S)
  search_loop [] key head base offset left_node right_node (m, s) = none
  search_loop (round ∷ others) key head base offset left_node right_node (m, s) =
      let w = round.before_check (m, set_hp (base + offset) right_node s) in
      let m1 = w.0 in
      let right_next = (m1 right_node).next in
      let try_again = search_loop others key head base offset head (m1 head).next w in
      let onward =
        search_loop others key head base (1 - offset) right_node (get_unmarked_ref right_next) w in
      let w2 = (physical_delete_right (round.before_cas w) left_node right_node).1 in
      let around =
        search_loop others key head base (1 - offset) left_node
          (get_unmarked_ref (w2.0 right_node).next) w2 in
      if not (right_node == (m1 left_node).next)
      then try_again
      else if not (is_marked_ref right_next)
      then (if leb key (m1 right_node).key
          then some (record {
            left_node = left_node;
            right_node = right_node;
            offset = 1 - offset;
            world = w;
          })
          else onward)
      else around

  unfoldable pub list_search :
      List (Round S) → (key : ℕ) → (head : Ptr) → (base : ℕ) → World S → Option (Place S)
  list_search others key head base w = search_loop others key head base 0 head (w.0 head).next w

  -- The loop of `harris_find`.
  unfoldable pub find_loop :
      List (Others S)
      → (key : ℕ) → (head : Ptr) → (base offset : ℕ) → (left_node right_node : Ptr) → World S
      → Option (Place S)
  find_loop [] key head base offset left_node right_node (m, s) = none
  find_loop (other ∷ others) key head base offset left_node right_node (m, s) =
      let w = other (m, set_hp (base + offset) right_node s) in
      let m1 = w.0 in
      let try_again = find_loop others key head base offset head (m1 head).next w in
      let onward =
        find_loop others key head base (1 - offset) right_node
          (get_unmarked_ref (m1 right_node).next) w in
      if not (right_node == (m1 left_node).next)
      then try_again
      else if leb key (m1 right_node).key
      then some (record {
        left_node = left_node;
        right_node = right_node;
        offset = 1 - offset;
        world = w;
      })
      else onward

  unfoldable pub harris_find :
      List (Others S) → (key : ℕ) → (head : Ptr) → (base : ℕ) → World S → Option (ℕ × World S)
  harris_find others key head base w =
      elim (find_loop others key head base 0 head (w.0 head).next w) [
        | none ↦ none
        | some p ↦
            let n = p.world.0 p.right_node in
            some (if (n.key == key) && not (is_marked_ref n.next) then n.val else 0, p.world)
      ]

  -- What happens in one round of an update: the rounds of its search, how the caller comes to a block
  -- for a new node, what the others do before the CAS, and what they do before the one of a deletion that
  -- takes the marked node out.
  pub record Try : Type 0 where
    pub searching : List (Round S)
    pub allocate : S → Ptr × S
    pub before_cas : Others S
    pub before_removal : Others S

  unfoldable pub harris_insert :
      List Try → (key val : ℕ) → (head : Ptr) → (base : ℕ) → World S → Option (ℕ × World S)
  harris_insert [] key val head base w = none
  harris_insert (t ∷ tries) key val head base w = elim (list_search t.searching key head base w) [
    | none ↦ none
    | some p ↦
        let m1 = p.world.0 in
        let (block, s1) = t.allocate p.world.1 in
        let w2 = t.before_cas (new_node m1 block key val p.right_node, s1) in
        let (res, m3) = cas_next w2.0 p.left_node p.right_node block in
        let again = harris_insert tries key val head base (m3, w2.1) in
        if (m1 p.right_node).key == key
        then some (0, p.world)
        else if res == p.right_node
        then some (1, (m3, w2.1))
        else again
  ]

  -- `harris_delete`; `last` is for the search that cleans up.
  unfoldable pub harris_delete :
      List Try
      → (last : List (Round S)) → (key : ℕ) → (head : Ptr) → (base : ℕ) → World S
      → Option (ℕ × World S)
  harris_delete [] last key head base w = none
  harris_delete (t ∷ tries) last key head base w = elim (list_search t.searching key head base w) [
    | none ↦ none
    | some p ↦
        let w2 = t.before_cas p.world in
        let unmarked_ref = get_unmarked_ref (w2.0 p.right_node).next in
        let (cas_result, m3) =
          cas_next w2.0 p.right_node unmarked_ref (get_marked_ref unmarked_ref) in
        let again = harris_delete tries last key head base (m3, w2.1) in
        let ret = (m3 p.right_node).val in
        let (removed, w4) =
          physical_delete_right (t.before_removal (m3, w2.1)) p.left_node p.right_node in
        let cleaned : Option (ℕ × World S) = elim (list_search last key head base w4) [
          | none ↦ none
          | some q ↦ some (ret, q.world)
        ] in
        if not (((p.world.0) p.right_node).key == key)
        then some (0, p.world)
        else if cas_result == unmarked_ref
        then (if removed then some (ret, w4) else cleaned)
        else again
  ]
