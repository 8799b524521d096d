-- ===== src/Fraser/Hazard/Update.antt =====
-- src/skiplist-fraser-hp/fraser.c: removal and insertion, over any search and any scheme.
use qsense.Prelude.{
  ℕ, zero, suc, ◌+◌, ◌-◌, ◌%◌, ◌^◌, Bool, true, false, not, Option, none, some, List, [], ◌∷◌, ◌==◌,
  if◌then◌else◌, put,
}
use qsense.DoubleLlist.{Ptr}
use qsense.Fraser.{Heap, is_marked, get_unmarked, get_marked, cas_next, sl_new_simple_node}
use qsense.Fraser.Update.{next_array, fill_levels}
use qsense.Fraser.Hazard.{World, Others, Found}

-- The `do` loop of `mark_node_ptrs` at level `i`, with what the others do before the CAS of each round.
unfoldable pub mark_level :
    {S : Type 0} → List (Others S) → World S → Ptr → (i : ℕ) → Option (List (Others S) × World S)
mark_level [] w n i = none
mark_level (other ∷ others) w n i =
    let n_next = (w.0 n).next i in
    let w1 = other w in
    let (swapped, m2) = cas_next w1.0 n i n_next (get_marked n_next) in
    let again = mark_level others (m2, w1.1) n i in
    if is_marked n_next
    then some (other ∷ others, w)
    else if swapped
    then some (others, (m2, w1.1))
    else again

unfoldable pub mark_node_ptrs :
    {S : Type 0} → List (Others S) → World S → Ptr → (top : ℕ) → Option (World S)
mark_node_ptrs others w n zero = some w
mark_node_ptrs others w n (suc i) = elim (mark_level others w n i) [
  | none ↦ none
  | some (later, w1) ↦ mark_node_ptrs later w1 n i
]

-- What comes of linking a level: go on with the next one, or jump to `success`.
pub data Linking (S : Type 0) : Type 0 where
  onward : List (Others S) → (preds succs : ℕ → Ptr) → World S → Linking S
  success : World S → Linking S

-- A round of `fraser_insert`: what the others do in the search, before the CAS at the lowest level, in
-- `mark_node_ptrs`, and while the upper levels are linked, each level with a search.
pub record Try (S : Type 0) : Type 0 where
  pub searching : List (Others S)
  pub before_cas : Others S
  pub marking : List (Others S)
  pub linking : List (Others S)

-- `search` is `fraser_search`, for the arrays that the caller passes; `retire q` is what the removal does with
-- the node `q`, and `give_back q` what the insertion does with the new node when the key is present.
module _ {S : Type 0}
    (search : (wants_left wants_right : Bool)
      → List (Others S)
      → World S
      → (head : Ptr) → (key : ℕ) → Option (Found S))
    (retire give_back : Ptr → S → S) where
  -- `fraser_remove`, with what the others do in the first search, before the increment of `deleted`, in
  -- `mark_node_ptrs` and in the last search.
  unfoldable pub fraser_remove :
      (searching : List (Others S))
      → (before_inc : Others S) → (marking last : List (Others S)) → World S
      → (head : Ptr) → (key : ℕ) → Option (ℕ × World S)
  fraser_remove searching before_inc marking last w head key =
      elim (search false true searching w head key) [
        | none ↦ none
        | some f ↦
            let m1 = f.world.0 in
            let n = f.right_list 0 in
            let w2 = before_inc f.world in
            let m2 = w2.0 in
            let m3 : Heap = put m2 n (record (m2 n) { deleted = ((m2 n).deleted + 1) % 2 ^ 32 }) in
            let finish : Option (ℕ × World S) =
              elim (mark_node_ptrs marking (m3, w2.1) n (m3 n).toplevel) [
                | none ↦ none
                | some (m4, s4) ↦ elim (search false false last (m4, retire n s4) head key) [
                  | none ↦ none
                  | some g ↦ some ((m4 n).val, g.world)
                ]
              ] in
            if not ((m1 n).key == key)
            then some (0, f.world)
            else if not ((m1 n).deleted == 0)
            then some (0, f.world)
            else if (m2 n).deleted == 0
            then finish
            else some (0, (m3, w2.1))
      ]

  -- The `while (1)` of `fraser_insert` at level `i`, for as many rounds; a round takes one element for what the
  -- others do between the test of the new node's pointer and the CASes, and its search takes more.
  unfoldable pub link_level :
      (rounds : ℕ)
      → List (Others S)
      → World S
      → (head : Ptr) → (key : ℕ) → (new : Ptr) → (preds succs : ℕ → Ptr) → (i : ℕ)
      → Option (Linking S)
  link_level zero others w head key new preds succs i = none
  link_level (suc rounds) [] w head key new preds succs i = none
  link_level (suc rounds) (other ∷ others) w head key new preds succs i =
      let pred = preds i in
      let succ = succs i in
      let new_next = (w.0 new).next i in
      let (m1, s1) = other w in
      let (stored, m2) =
        if new_next == succ then (true, m1) else cas_next m1 new i (get_unmarked new_next) succ in
      let succ1 = if (m2 succ).key == key then get_unmarked (next_array succ) else succ in
      let (linked, m3) = cas_next m2 pred i succ1 new in
      let again : Option (Linking S) = elim (search true true others (m3, s1) head key) [
        | none ↦ none
        | some f ↦ link_level rounds f.later f.world head key new f.left_list f.right_list i
      ] in
      if is_marked new_next
      then some (success w)
      else if not stored
      then some (onward others preds succs (m2, s1))
      else if linked
      then some (onward others preds succs (m3, s1))
      else again

  unfoldable pub link_levels :
      (rounds : ℕ)
      → List (Others S)
      → World S
      → (head : Ptr) → (key : ℕ) → (new : Ptr) → (preds succs : ℕ → Ptr) → (n i : ℕ)
      → Option (World S)
  link_levels rounds others w head key new preds succs zero i = some w
  link_levels rounds others w head key new preds succs (suc n) i =
      elim (link_level rounds others w head key new preds succs i) [
        | none ↦ none
        | some (success w1) ↦ some w1
        | some (onward later preds1 succs1 w1) ↦
            link_levels rounds later w1 head key new preds1 succs1 n (i + 1)
      ]

  -- `fraser_insert` from `retry` on, for the new node, which has been made.
  unfoldable pub insert_loop :
      (rounds : ℕ)
      → List (Try S)
      → World S
      → (head : Ptr) → (key : ℕ) → (new : Ptr) → Option (ℕ × World S)
  insert_loop rounds [] w head key new = none
  insert_loop rounds (t ∷ ts) w head key new = elim (search true true t.searching w head key) [
    | none ↦ none
    | some f ↦
        let preds = f.left_list in
        let succs = f.right_list in
        let (m1, s1) = f.world in
        let top = (m1 new).toplevel in
        let (m2, s2) = t.before_cas (fill_levels m1 new succs top, s1) in
        let (linked, m3) = cas_next m2 (preds 0) 0 (succs 0) new in
        let retry_with = λ (w4 : World S). insert_loop rounds ts w4 head key new in
        let cleared : Option (ℕ × World S) =
          elim (mark_node_ptrs t.marking f.world (succs 0) (m1 (succs 0)).toplevel) [
            | none ↦ none
            | some w4 ↦ retry_with w4
          ] in
        let upper : Option (ℕ × World S) =
          elim (link_levels rounds t.linking (m3, s2) head key new preds succs (top - 1) 1) [
            | none ↦ none
            | some w4 ↦ some (1, w4)
          ] in
        if (m1 (succs 0)).key == key
        then (if not ((m1 (succs 0)).deleted == 0)
            then cleared
            else some (0, (m1, give_back new s1)))
        else if linked
        then upper
        else retry_with (m3, s2)
  ]

  -- `fraser_insert`; `new` is the block of the new node and `top` its height.
  unfoldable pub fraser_insert :
      (rounds : ℕ)
      → List (Try S)
      → World S
      → (head : Ptr) → (key val : ℕ) → (new : Ptr) → (top : ℕ) → Option (ℕ × World S)
  fraser_insert rounds ts (m, s) head key val new top =
      insert_loop rounds ts (sl_new_simple_node m new key val top, s) head key new
